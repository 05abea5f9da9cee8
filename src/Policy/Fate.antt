-- ===== src/Policy/Fate.antt =====
-- What the steps of the workflow do to one ticket over time: it only moves forward, what it asks for
-- never changes, what was approved never changes, and an ended ticket never changes at all.
use yusui.Prelude.{
  ℕ, ◌≤◌, ◌<◌, ◌≡◌, refl, ap, subst, ◌∙◌, some, List, [], ◌∷◌, ◌++◌, arith, ℕ_discrete,
}
use yusui.Store.Rows.{
  YusuiTicket, YusuiAuditLog, Status, draft, pending, approved, active, revoking, closed, rejected,
  expired, apply_failed, revoke_pending, Action,
}
use yusui.Store.Conn.{Tables}
use yusui.Store.Tickets.{find, update}
use yusui.Store.Lookup.{find-update_self, find-update_ne, find-append_old}
use yusui.Policy.Step.{
  Edit, approves, edited, Move, approve, reject, apply, fail, revoke, stall, finish, Step, submits,
  moves, Evolves, here, step,
}
use yusui.Policy.Log.{edited-id}

-- How far a ticket has come.
unfoldable pub stage : Status → ℕ
stage pending = 0
stage approved = 1
stage active = 2
stage revoking = 3
stage closed = 4
stage rejected = 4
stage apply_failed = 4
stage revoke_pending = 4
stage draft = 4
stage expired = 4

-- `u` is what became of the ticket `t`.
pub record Descends (t u : YusuiTicket) : Type 0 where
  pub forward : stage t.status ≤ stage u.status
  pub pub_id : u.pub_id ≡ t.pub_id
  pub requester_id : u.requester_id ≡ t.requester_id
  pub project_id : u.project_id ≡ t.project_id
  pub target_selector : u.target_selector ≡ t.target_selector
  pub access_kind : u.access_kind ≡ t.access_kind
  pub reason : u.reason ≡ t.reason
  pub ports : u.ports ≡ t.ports
  pub protocol : u.protocol ≡ t.protocol
  pub duration_sec : u.duration_sec ≡ t.duration_sec
  pub approver_id : 1 ≤ stage t.status → u.approver_id ≡ t.approver_id
  pub frozen_asset_ids : 1 ≤ stage t.status → u.frozen_asset_ids ≡ t.frozen_asset_ids
  pub expires_at : 2 ≤ stage t.status → u.expires_at ≡ t.expires_at
  pub ended : 4 ≤ stage t.status → u ≡ t

Descends-refl : (t : YusuiTicket) → Descends t t
Descends-refl t = record {
  forward = omega arith;
  pub_id = refl;
  requester_id = refl;
  project_id = refl;
  target_selector = refl;
  access_kind = refl;
  reason = refl;
  ports = refl;
  protocol = refl;
  duration_sec = refl;
  approver_id = λ _. refl;
  frozen_asset_ids = λ _. refl;
  expires_at = λ _. refl;
  ended = λ _. refl;
}

Descends-trans : {t u v : YusuiTicket} → Descends t u → Descends u v → Descends t v
Descends-trans {t} {u} {v} h k = record {
  forward = omega (arith, h.forward, k.forward);
  pub_id = k.pub_id ∙ h.pub_id;
  requester_id = k.requester_id ∙ h.requester_id;
  project_id = k.project_id ∙ h.project_id;
  target_selector = k.target_selector ∙ h.target_selector;
  access_kind = k.access_kind ∙ h.access_kind;
  reason = k.reason ∙ h.reason;
  ports = k.ports ∙ h.ports;
  protocol = k.protocol ∙ h.protocol;
  duration_sec = k.duration_sec ∙ h.duration_sec;
  approver_id = λ l. k.approver_id (omega (arith, h.forward)) ∙ h.approver_id l;
  frozen_asset_ids = λ l. k.frozen_asset_ids (omega (arith, h.forward)) ∙ h.frozen_asset_ids l;
  expires_at = λ l. k.expires_at (omega (arith, h.forward)) ∙ h.expires_at l;
  ended = λ l. k.ended (omega (arith, h.forward)) ∙ h.ended l;
}

Move-forward :
    {t : YusuiTicket} {act : Action} {e : Edit}
    → Move t act e
    → stage t.status < stage (edited e t).status
unfolding stage
Move-forward (approve now a ids p q) = rw p (omega arith)
Move-forward (reject now p) = rw p (omega arith)
Move-forward (apply now x p) = rw p (omega arith)
Move-forward (fail now p) = rw p (omega arith)
Move-forward (revoke now p) = rw p (omega arith)
Move-forward (stall now p) = rw p (omega arith)
Move-forward (finish now p) = rw p (omega arith)

stage_bounded : (s : Status) → stage s ≤ 4
unfolding stage
stage_bounded draft = omega arith
stage_bounded _ = omega arith

early : {s : Status} → s ≡ pending → ¬ (1 ≤ stage s)
unfolding stage
early p = rw p (omega arith)

started : {s : Status} → s ≡ approved → ¬ (2 ≤ stage s)
unfolding stage
started p = rw p (omega arith)

-- The decided columns are written where the stage was lower.
Move-decided :
    {t : YusuiTicket} {act : Action} {e : Edit}
    → Move t act e
    → (1 ≤ stage t.status → (edited e t).approver_id ≡ t.approver_id)
      × (1 ≤ stage t.status → (edited e t).frozen_asset_ids ≡ t.frozen_asset_ids)
      × (2 ≤ stage t.status → (edited e t).expires_at ≡ t.expires_at)
unfolding stage
Move-decided (approve now a ids p q) = (λ l. absurd (early p l), λ l. absurd (early p l), λ _. refl)
Move-decided (apply now x p) = (λ _. refl, λ _. refl, λ l. absurd (started p l))
Move-decided (reject now p) = (λ _. refl, λ _. refl, λ _. refl)
Move-decided (fail now p) = (λ _. refl, λ _. refl, λ _. refl)
Move-decided (revoke now p) = (λ _. refl, λ _. refl, λ _. refl)
Move-decided (stall now p) = (λ _. refl, λ _. refl, λ _. refl)
Move-decided (finish now p) = (λ _. refl, λ _. refl, λ _. refl)

-- The columns of Submit, which no UPDATE writes.
record SameRequest (t u : YusuiTicket) : Type 0 where
  pub_id : u.pub_id ≡ t.pub_id
  requester_id : u.requester_id ≡ t.requester_id
  project_id : u.project_id ≡ t.project_id
  target_selector : u.target_selector ≡ t.target_selector
  access_kind : u.access_kind ≡ t.access_kind
  reason : u.reason ≡ t.reason
  ports : u.ports ≡ t.ports
  protocol : u.protocol ≡ t.protocol
  duration_sec : u.duration_sec ≡ t.duration_sec

edited-SameRequest : (e : Edit) (t : YusuiTicket) → SameRequest t (edited e t)
edited-SameRequest (approves now a ids) t = record {
  pub_id = refl;
  requester_id = refl;
  project_id = refl;
  target_selector = refl;
  access_kind = refl;
  reason = refl;
  ports = refl;
  protocol = refl;
  duration_sec = refl;
}
edited-SameRequest _ t = record {
  pub_id = refl;
  requester_id = refl;
  project_id = refl;
  target_selector = refl;
  access_kind = refl;
  reason = refl;
  ports = refl;
  protocol = refl;
  duration_sec = refl;
}

Move-Descends : {t : YusuiTicket} {act : Action} {e : Edit} → Move t act e → Descends t (edited e t)
Move-Descends {t} {act} {e} m =
    let s = edited-SameRequest e t in
    let (a, f, x) = Move-decided m in
    let l = Move-forward m in
    let b = stage_bounded (edited e t).status in
    record {
      forward = omega (arith, l);
      pub_id = s.pub_id;
      requester_id = s.requester_id;
      project_id = s.project_id;
      target_selector = s.target_selector;
      access_kind = s.access_kind;
      reason = s.reason;
      ports = s.ports;
      protocol = s.protocol;
      duration_sec = s.duration_sec;
      approver_id = a;
      frozen_asset_ids = f;
      expires_at = x;
      ended = λ h. absurd (omega (arith, l, b, h));
    }

-- A ticket is found again under its id after a step.
Step-Descends :
    {d d' : Tables} (i : ℕ) (t : YusuiTicket)
    → Step d d'
    → find i d.tickets ≡ some t
    → (u : YusuiTicket) × (find i d'.tickets ≡ some u) × Descends t u
Step-Descends {d} {d'} i t (submits x ts actor payload _ _ _ _ rows log) found =
    (t, ap (find i) rows ∙ find-append_old i d.tickets x t found, Descends-refl t)
Step-Descends {d} {d'} i t (moves x ts actor act payload e at m rows log) found =
    elim (ℕ_discrete x.id i) [
      | yes same ↦
          let here : x ≡ t = cc (ap (λ k. find k d.tickets) same, at, found) in
          (
            edited e x,
            ap (find i) rows ∙ moved same,
            subst (λ y. Descends y (edited e x)) here (Move-Descends m),
          )
      | no other ↦ (
        t,
        ap (find i) rows ∙ find-update_ne x.id i (edited e) d.tickets (edited-id e) other ∙ found,
        Descends-refl t,
      )
    ]
  where
    moved : x.id ≡ i → find i (update x.id (edited e) d.tickets) ≡ some (edited e x)
    moved same =
        subst (λ k. find k (update x.id (edited e) d.tickets) ≡ some (edited e x)) same
          (find-update_self x.id (edited e) d.tickets x (edited-id e) at)

pub Evolves-Descends :
    {d d' : Tables} (i : ℕ) (t : YusuiTicket)
    → Evolves d d'
    → find i d.tickets ≡ some t
    → (u : YusuiTicket) × (find i d'.tickets ≡ some u) × Descends t u
Evolves-Descends i t here found = (t, found, Descends-refl t)
Evolves-Descends i t (step r s) found =
    let (u, p, h) = Evolves-Descends i t r found in
    let (v, q, k) = Step-Descends i u s p in (v, q, Descends-trans h k)

-- One row more in the audit log.
Step-log : {d d' : Tables} → Step d d' → (r : YusuiAuditLog) × (d'.audit_logs ≡ r ∷ d.audit_logs)
Step-log (submits t ts actor payload _ _ _ _ rows log) = (_, log)
Step-log (moves t ts actor act payload e at m rows log) = (_, log)

-- The rows that a history adds to the audit log stand before the old ones.
pub Evolves-append :
    {d d' : Tables}
    → Evolves d d'
    → (new : List YusuiAuditLog) × (d'.audit_logs ≡ new ++ d.audit_logs)
Evolves-append here = ([], refl)
Evolves-append (step q s) =
    let (new, p) = Evolves-append q in let (r, h) = Step-log s in (r ∷ new, h ∙ ap (λ l. r ∷ l) p)
