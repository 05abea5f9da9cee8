-- ===== src/Policy/World.antt =====
-- What an operation of the engine can change: the database, the forward map, the state behind the
-- gateway, and the live Web Shell sessions; and the collaborators in the engine's fields.
use yusui.Prelude.{ℕ, Bool, Option, none, some, List, String, get, put, delete, is_some}
use yusui.Exec.{ok, Exec}
use yusui.Store.Conn.{Conn, Db}
use yusui.Gateway.{Gateway}

-- `SessionCloser`.
pub record SessionCloser (S : Type 0) : Type 0 where
  pub force_close_by_ticket : ℕ → String → Exec S (Unit {0})

-- `parse_addr` is netip.ParseAddr, an address being its canonical text; `ulid` gives the n-th ULID.
pub record Engine (G S : Type 0) : Type 0 where
  pub gateway : Gateway G
  pub src_peer_ips : List String
  pub closer : Option (SessionCloser S)
  pub parse_addr : String → Option String
  pub ulid : ℕ → ℕ

-- `forwards` holds "" for a rule in force whose asset is dialled directly.
pub record World (G S : Type 0) : Type 0 where
  pub conn : Conn
  pub forwards : List (ℕ × String)
  pub gw : G
  pub shell : S
  pub minted : ℕ

-- The zero value "" of a missing key.
abbrev or_empty : Option String → String
or_empty none = ""
or_empty (some a) = a

module _ {G S A : Type 0} where
  unfoldable pub on_db : Db A → Exec (World G S) A
  on_db m w = ((m w.conn).0, record w { conn = (m w.conn).1 })

  unfoldable pub on_gw : Exec G A → Exec (World G S) A
  on_gw m w = ((m w.gw).0, record w { gw = (m w.gw).1 })

  unfoldable pub on_shell : Exec S A → Exec (World G S) A
  on_shell m w = ((m w.shell).0, record w { shell = (m w.shell).1 })

module _ {G S : Type 0} where
  unfoldable pub time_now : Exec (World G S) ℕ
  time_now w = (ok w.conn.now, w)

  unfoldable pub resolve_forward : ℕ → World G S → String
  resolve_forward id w = or_empty (get id w.forwards)

  unfoldable pub set_forward : ℕ → String → Exec (World G S) (Unit {0})
  set_forward id addr w = (ok tt, record w { forwards = put id addr w.forwards })

  unfoldable pub clear_forward : ℕ → Exec (World G S) (Unit {0})
  clear_forward id w = (ok tt, record w { forwards = delete id w.forwards })

  unfoldable pub forward_known : ℕ → World G S → Bool
  forward_known id w = is_some (get id w.forwards)
