-- ===== src/Store/Audit.antt =====
-- The listings of server/internal/store/audit.sql.go. The newest row stands first in the table, so
-- that a stable sort by time gives `ORDER BY ts DESC, id DESC`.
use yusui.Prelude.{Bool, false, List, [], ◌∷◌, if◌then◌else◌, ltb, ◌==◌, select, take}
use yusui.Prelude.Int.{ℤ, lt_const, to_nat}
use yusui.Exec.{Result, ok, err, unavailable}
use yusui.Store.Rows.{YusuiAuditLog, Target, ticket, agent}
use yusui.Store.Conn.{Db, read}

abbrev pub same_target : Target → Target → Bool
same_target (ticket a) (ticket b) = a == b
same_target (agent a) (agent b) = a == b
same_target (ticket a) (agent b) = false
same_target (agent a) (ticket b) = false

unfoldable pub place : YusuiAuditLog → List YusuiAuditLog → List YusuiAuditLog
place a [] = a ∷ []
place a (b ∷ rows) = if ltb a.ts b.ts then b ∷ place a rows else a ∷ b ∷ rows

unfoldable pub by_time : List YusuiAuditLog → List YusuiAuditLog
unfolding place
by_time [] = []
by_time (a ∷ rows) = place a (by_time rows)

-- A negative LIMIT is an error of the database.
abbrev pub limited : ℤ → List YusuiAuditLog → Result (List YusuiAuditLog)
limited limit rows =
    if lt_const limit 0 then err unavailable else ok (take (to_nat limit) (by_time rows))

unfoldable pub list_audit_by_target : Target → ℤ → Db (List YusuiAuditLog)
unfolding by_time
list_audit_by_target target limit =
    read λ c. limited limit (select (λ a. same_target a.target target) c.audit_logs)

unfoldable pub list_recent_audit : ℤ → Db (List YusuiAuditLog)
unfolding by_time
list_recent_audit limit = read λ c. limited limit c.audit_logs
