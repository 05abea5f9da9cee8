-- ===== src/Store/Conn.antt =====
-- server/internal/store/pool.go, db.go: a database connection. `Db A` is a call that may fail. The
-- tables change as the SQL says; any call may fail with `unavailable`, as `fails` tells of its
-- number, and a transaction that does not end well leaves the tables as they were.
use yusui.Prelude.{ℕ, ◌+◌, Bool, Option, none, some, List, if◌then◌else◌}
use yusui.Exec.{Result, ok, err, Exec, pure, ◌>>=◌, ◌>>◌, no_rows, unavailable}
use yusui.Store.Rows.{
  YusuiTicket, YusuiAsset, YusuiAssetCredential, YusuiProject, YusuiAgent, YusuiUser,
  YusuiPolicyBinding, YusuiAuditLog,
}

pub record Tables : Type 0 where
  pub users : List YusuiUser
  pub projects : List YusuiProject
  pub agents : List YusuiAgent
  pub assets : List YusuiAsset
  pub asset_credentials : List YusuiAssetCredential
  pub tickets : List YusuiTicket
  pub policy_bindings : List YusuiPolicyBinding
  pub audit_logs : List YusuiAuditLog

-- `calls` counts the calls made; `seq` stands for the sequences behind the BIGSERIAL columns, which
-- a rollback does not set back; `now` is the clock, which stands still within one operation.
pub record Conn : Type 0 where
  pub tables : Tables
  pub open tables use *
  pub calls : ℕ
  pub fails : ℕ → Bool
  pub seq : ℕ
  pub now : ℕ

abbrev pub Db : Type 0 → Type 0
Db A = Exec Conn A

abbrev pub counted : Conn → Conn
counted c = record c { calls = c.calls + 1 }

module _ {A : Type 0} where
  -- One round trip to the database.
  unfoldable pub query : Db A → Db A
  query stmt c = if c.fails c.calls then (err unavailable, counted c) else stmt (counted c)

  abbrev pub read : (Conn → Result A) → Db A
  read f = query λ c. (f c, c)

  -- `:one` reports pgx.ErrNoRows where there is no row.
  abbrev pub one : Option A → Result A
  one none = err no_rows
  one (some a) = ok a

-- `:exec` of an UPDATE or INSERT that no constraint stops.
abbrev pub write : (Conn → Tables) → Db (Unit {0})
write f = query λ c. (ok tt, record c { tables = f c })

abbrev pub no_change : Db (Unit {0})
no_change = write λ c. c.tables

module _ {A : Type 0} where
  abbrev pub settle : Tables → Result A → Conn → Result A × Conn
  settle before (ok a) c = (ok a, c)
  settle before (err e) c = (err e, record c { tables = before })

  -- Begin, the body and Commit.
  unfoldable pub bracketed : Db A → Db A
  bracketed body = no_change >> body >>= λ a. no_change >> pure a

  -- With the deferred Rollback. A Commit that fails has not committed.
  unfoldable pub in_tx : Db A → Db A
  in_tx body c = settle c.tables (bracketed body c).0 (bracketed body c).1
