-- ===== src/Policy/Step.antt =====
-- The abstract ticket workflow: what one committed transaction of server/internal/policy/engine.go
-- may do to the tables. A step adds a pending ticket or edits one row as its status allows, and
-- writes one audit row; every other engine call leaves tickets and audit log alone.
use yusui.Prelude.{ℕ, ◌≡◌, ◌≢◌, false, none, some, List, [], ◌∷◌, ◌++◌, exists, ◌==◌}
use yusui.Store.Rows.{
  YusuiTicket, Status, pending, approved, active, revoking, closed, rejected, apply_failed,
  revoke_pending, Actor, Action, Payload, Target,
}
use yusui.Store.Conn.{Tables}
use yusui.Store.Tickets.{find, update, approve_row, activate_row, status_row, close_row}
use yusui.Store.Catalog.{audit_row}

-- The UPDATEs of tickets.sql.go, with their arguments.
pub data Edit : Type 0 where
  approves : (now approver : ℕ) → (frozen : List ℕ) → Edit
  activates : (now expires : ℕ) → Edit
  sets closes : (now : ℕ) → Status → Edit

abbrev pub edited : Edit → YusuiTicket → YusuiTicket
edited (approves now approver frozen) = approve_row now approver frozen
edited (activates now expires) = activate_row now expires
edited (sets now s) = status_row now s
edited (closes now s) = close_row now s

-- The arrows of the workflow. Only an approval has a condition beyond the status.
pub data Move (t : YusuiTicket) : Action → Edit → Type 0 where
  approve :
      (now a : ℕ) (frozen : List ℕ)
      → t.status ≡ pending
      → t.requester_id ≢ a
      → Move t Action.ticket_approve (approves now a frozen)
  reject : (now : ℕ) → t.status ≡ pending → Move t Action.ticket_reject (closes now rejected)
  apply :
      (now expires : ℕ) → t.status ≡ approved → Move t Action.policy_apply (activates now expires)
  fail : (now : ℕ) → t.status ≡ approved → Move t Action.policy_apply_failed (sets now apply_failed)
  revoke : (now : ℕ) → t.status ≡ active → Move t Action.ticket_revoke (sets now revoking)
  stall :
      (now : ℕ)
      → t.status ≡ revoking
      → Move t Action.policy_revoke_pending (sets now revoke_pending)
  finish : (now : ℕ) → t.status ≡ revoking → Move t Action.policy_revoke (closes now closed)

pub data Step (d d' : Tables) : Type 0 where
  submits :
      (t : YusuiTicket) (ts : ℕ) (actor : Actor) (payload : Payload)
      → find t.id d.tickets ≡ none
      → exists (λ x. x.pub_id == t.pub_id) d.tickets ≡ false
      → t.status ≡ pending
      → t.approver_id ≡ none
      → d'.tickets ≡ d.tickets ++ t ∷ []
      → d'.audit_logs
        ≡ audit_row ts actor Action.ticket_submit (Target.ticket t.pub_id) payload ∷ d.audit_logs
      → Step d d'
  moves :
      (t : YusuiTicket) (ts : ℕ) (actor : Actor) (act : Action) (payload : Payload) (e : Edit)
      → find t.id d.tickets ≡ some t
      → Move t act e
      → d'.tickets ≡ update t.id (edited e) d.tickets
      → d'.audit_logs ≡ audit_row ts actor act (Target.ticket t.pub_id) payload ∷ d.audit_logs
      → Step d d'

-- Any number of steps, by whoever commits them.
pub data Evolves (d : Tables) : Tables → Type 0 where
  here : Evolves d d
  step : {d' d'' : Tables} → Evolves d d' → Step d' d'' → Evolves d d''

pub Evolves-trans : {d d' d'' : Tables} → Evolves d d' → Evolves d' d'' → Evolves d d''
Evolves-trans r here = r
Evolves-trans r (step q s) = step (Evolves-trans r q) s
