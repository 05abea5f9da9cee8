-- ===== src/Policy/Log.antt =====
-- Invariants of the abstract workflow, by induction on its steps: the audit log tells every status,
-- nobody approves a ticket of their own, and public ids stay unique.
use yusui.Prelude.{
  ℕ, ◌≡◌, ◌≢◌, refl, Bool, false, Option, none, some, List, [], ◌∷◌, ◌==◌, if◌then◌else◌, arith,
}
use yusui.Store.Rows.{
  YusuiTicket, YusuiAuditLog, Status, Action, Target, pending, approved, active, revoking, closed,
  rejected, apply_failed, revoke_pending, ticket_submit, ticket_approve, ticket_reject,
  ticket_revoke, policy_apply, policy_apply_failed, policy_revoke, policy_revoke_pending,
  agent_approve, agent_reject,
}
use yusui.Store.Conn.{Tables}
use yusui.Store.Tickets.{find}
use yusui.Policy.Step.{
  Edit, approves, edited, Move, approve, reject, apply, fail, revoke, stall, finish,
}

-- The status that an action leaves a ticket in.
abbrev pub outcome : Action → Option Status
outcome ticket_submit = some pending
outcome ticket_approve = some approved
outcome ticket_reject = some rejected
outcome ticket_revoke = some revoking
outcome policy_apply = some active
outcome policy_apply_failed = some apply_failed
outcome policy_revoke = some closed
outcome policy_revoke_pending = some revoke_pending
outcome agent_approve = none
outcome agent_reject = none

abbrev pub concerns : ℕ → Target → Bool
concerns p (Target.ticket q) = q == p
concerns p (Target.agent q) = false

-- What the newest audit row about a public id says of its ticket.
unfoldable pub log_status : ℕ → List YusuiAuditLog → Option Status
log_status p [] = none
log_status p (r ∷ rs) = if concerns p r.target then outcome r.action else log_status p rs

pub record Inv (d : Tables) : Type 0 where
  pub distinct :
      (i j : ℕ) (t u : YusuiTicket)
      → find i d.tickets ≡ some t
      → find j d.tickets ≡ some u
      → t.pub_id ≡ u.pub_id
      → i ≡ j
  pub logged :
      (i : ℕ) (t : YusuiTicket)
      → find i d.tickets ≡ some t
      → log_status t.pub_id d.audit_logs ≡ some t.status
  pub separated :
      (i a : ℕ) (t : YusuiTicket)
      → find i d.tickets ≡ some t
      → t.approver_id ≡ some a
      → t.requester_id ≢ a

-- What no edit touches.
pub edited-id : (e : Edit) (t : YusuiTicket) → (edited e t).id ≡ t.id
edited-id (approves now a ids) t = refl
edited-id _ t = refl

pub edited-pub_id : (e : Edit) (t : YusuiTicket) → (edited e t).pub_id ≡ t.pub_id
edited-pub_id (approves now a ids) t = refl
edited-pub_id _ t = refl

pub Move-outcome :
    {t : YusuiTicket} {act : Action} {e : Edit}
    → Move t act e
    → outcome act ≡ some (edited e t).status
Move-outcome (approve now a ids p q) = refl
Move-outcome (reject now p) = refl
Move-outcome (apply now x p) = refl
Move-outcome (fail now p) = refl
Move-outcome (revoke now p) = refl
Move-outcome (stall now p) = refl
Move-outcome (finish now p) = refl

-- An approval names an approver other than the requester; no other move names one.
pub Move-separated :
    {t : YusuiTicket} {act : Action} {e : Edit} (a : ℕ)
    → Move t act e
    → (t.approver_id ≡ some a → t.requester_id ≢ a)
    → (edited e t).approver_id ≡ some a
    → (edited e t).requester_id ≢ a
Move-separated a (approve now b ids p q) h e = λ same. ground (arith, q)
Move-separated a (reject now p) h e = h e
Move-separated a (apply now x p) h e = h e
Move-separated a (fail now p) h e = h e
Move-separated a (revoke now p) h e = h e
Move-separated a (stall now p) h e = h e
Move-separated a (finish now p) h e = h e

pub log_status_hit :
    (p : ℕ) (r : YusuiAuditLog) (rs : List YusuiAuditLog)
    → r.target ≡ Target.ticket p
    → log_status p (r ∷ rs) ≡ outcome r.action
unfolding log_status
log_status_hit p r rs e = ground (arith, e)

pub log_status_miss :
    (p q : ℕ) (r : YusuiAuditLog) (rs : List YusuiAuditLog)
    → r.target ≡ Target.ticket q
    → q ≢ p
    → log_status p (r ∷ rs) ≡ log_status p rs
unfolding log_status
log_status_miss p q r rs e n = ground (arith, e)
