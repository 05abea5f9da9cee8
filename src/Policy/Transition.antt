-- ===== src/Policy/Transition.antt =====
-- The guarded status change of server/internal/policy/engine.go: lock the row, compare its status,
-- change it, write the audit row and read the result back, all in one transaction.
use yusui.Prelude.{ℕ, ◌≡◌, refl, sym, ap, ◌∙◌, Bool, true, if◌then◌else◌, ◌==◌, ==→eq}
use yusui.Exec.{Result, ok, err, raise, ◌>>=◌, ◌>>◌, not_found, conflict, no_rows}
use yusui.Store.Rows.{
  YusuiTicket, Status, draft, pending, approved, active, revoking, closed, rejected, expired,
  apply_failed, revoke_pending, Actor, Action, Payload, Target,
}
use yusui.Store.Conn.{Db, in_tx}
use yusui.Store.Tickets.{get_ticket_for_update, get_ticket_by_id}
use yusui.Store.Catalog.{insert_audit}

abbrev code : Status → ℕ
code draft = 0
code pending = 1
code approved = 2
code active = 3
code revoking = 4
code closed = 5
code rejected = 6
code expired = 7
code apply_failed = 8
code revoke_pending = 9

unfoldable pub same_status : Status → Status → Bool
same_status s t = code s == code t

abbrev decode : ℕ → Status
decode n =
    if n == 0
    then draft
    else if n == 1
    then pending
    else if n == 2
    then approved
    else if n == 3
    then active
    else if n == 4
    then revoking
    else if n == 5
    then closed
    else if n == 6
    then rejected
    else if n == 7
    then expired
    else if n == 8
    then apply_failed
    else revoke_pending

decode-code : (s : Status) → decode (code s) ≡ s
decode-code draft = refl
decode-code _ = refl

pub eq_of_same_status : (s t : Status) → same_status s t ≡ true → s ≡ t
unfolding same_status
eq_of_same_status s t h =
    sym (decode-code s) ∙ ap decode (==→eq (code s) (code t) h) ∙ decode-code t

abbrev pub name_missing {ℓ} : {A : Type ℓ} → Result A → Result A
name_missing (ok a) = ok a
name_missing (err no_rows) = err not_found
name_missing (err e) = err e

-- errors.Is(err, pgx.ErrNoRows) turns into ErrNotFound; any other error is passed on.
unfoldable pub lock_ticket : ℕ → Db YusuiTicket
lock_ticket id c = (name_missing (get_ticket_for_update id c).0, (get_ticket_for_update id c).1)

-- `audit` of the engine: the target is the ticket, by its public id.
unfoldable pub audit : Actor → Action → ℕ → Payload → Db (Unit {0})
audit actor action pub_id payload = insert_audit actor action (Target.ticket pub_id) payload

unfoldable pub guarded :
    ℕ
    → Status
    → Action
    → Actor
    → Payload
    → (YusuiTicket → Db (Unit {0}))
    → YusuiTicket
    → Db YusuiTicket
guarded id from action actor payload mutate t =
    if same_status t.status from
    then mutate t >> audit actor action t.pub_id payload >> get_ticket_by_id id
    else raise conflict

unfoldable pub transition :
    ℕ → Status → Action → Actor → Payload → (YusuiTicket → Db (Unit {0})) → Db YusuiTicket
unfolding guarded
transition id from action actor payload mutate =
    in_tx do t ← lock_ticket id; guarded id from action actor payload mutate t
