-- ===== src/Policy/Approval.antt =====
-- What Approve of server/internal/policy/engine.go has achieved when it succeeds.
use yusui.Prelude.{ℕ, ◌≡◌, ◌≢◌, sym, ap, subst, ◌∙◌, some, arith, is_some, get, true}
use yusui.Exec.{◌>>=◌, ok}
use yusui.Exec.After.{After, After-imp, After-bind, After-bind_here, After-ok}
use yusui.Store.Rows.{YusuiTicket, Status, Actor, Action}
use yusui.Store.Tickets.{find, get_ticket_by_id}
use yusui.Policy.World.{Engine, World, on_db, forward_known}
use yusui.Policy.Step.{Edit, edited, Move}
use yusui.Policy.Commits.{read-After}
use yusui.Policy.Changes.{approve_tx-After}
use yusui.Policy.Engine.{apply, approve}
use yusui.Policy.Workflow.{apply-Works}
use yusui.Policy.Fate.{Evolves-Descends, Descends, stage}
use yusui.Policy.Outcomes.{on_db-After, Committed-row, Committed-status, Applied, apply-After}

-- An approval names its approver, who is not the requester.
approved_by :
    {t : YusuiTicket} {e : Edit} {a : ℕ}
    → Move t Action.ticket_approve e
    → (edited e t).approver_id ≡ some a
    → (edited e t).requester_id ≢ a
approved_by (Move.approve now b ids p q) h = λ same. q (cc (same, h))

-- What an approval that succeeds has done.
pub record Granted {G S : Type 0} (id approver : ℕ) (t : YusuiTicket) (w : World G S) : Type 0 where
  pub found : find id w.conn.tickets ≡ some t
  pub active : t.status ≡ Status.active
  pub approver_id : t.approver_id ≡ some approver
  pub requester_id : t.requester_id ≢ approver
  pub known : forward_known id w ≡ true

module _ {G S : Type 0} (e : Engine G S) (id approver : ℕ) (actor : Actor) where
  -- The row that the approval left, seen again after the apply.
  granted :
      (t u : YusuiTicket) (w : World G S)
      → Descends t u
      → t.status ≡ Status.approved
      → t.approver_id ≡ some approver
      → t.requester_id ≢ approver
      → (a : Applied id w) → find id w.conn.tickets ≡ some u
      → Granted id approver u w
  unfolding stage
  granted t u w h s by other a found = record {
    found = found;
    active = ap (λ x. x.status) same ∙ a.active;
    approver_id = h.approver_id (rw s (omega arith)) ∙ by;
    requester_id = λ p. other (sym h.requester_id ∙ p);
    known = a.known;
  }
    where
      same : u ≡ a.row
      same = cc (found, a.found)

  read_granted :
      (t r : YusuiTicket) (w : World G S)
      → find id w.conn.tickets ≡ some r
      → Descends t r
      → t.status ≡ Status.approved
      → t.approver_id ≡ some approver
      → t.requester_id ≢ approver
      → Applied id w
      → After (λ u w'. Granted id approver u w') (on_db (get_ticket_by_id id)) w
  unfolding get_ticket_by_id forward_known
  read_granted t r w found h s by other a =
      After-imp
        (λ u w' q.
          let same : w'.conn.tables ≡ w.conn.tables = q.0.1 in
          granted t u w' (subst (Descends t) (cc (found, q.0.0)) h) s by other
            (record {
              row = a.row;
              found = ap (λ d. find id d.tickets) same ∙ a.found;
              active = a.active;
              known = ap (λ m. is_some (get id m)) q.1 ∙ a.known;
            })
            (ap (λ d. find id d.tickets) same ∙ q.0.0))
        (on_db-After (read-After (λ d. find id d.tickets) w.conn))

  apply_granted :
      (t : YusuiTicket) (w : World G S)
      → find id w.conn.tickets ≡ some t
      → t.status ≡ Status.approved
      → t.approver_id ≡ some approver
      → t.requester_id ≢ approver
      → After
          (λ u w'. Granted id approver u w')
          (apply e id actor >>= λ _. on_db (get_ticket_by_id id))
          w
  apply_granted t w found s by other =
      let (r, p, h) = Evolves-Descends id t ((apply-Works e id actor).at w) found in
      After-bind_here (apply-After e id actor w) (λ _ a. read_granted t r _ p h s by other a)

  approve-After :
      (w : World G S) → After (λ u w'. Granted id approver u w') (approve e id approver actor) w
  unfolding approve
  approve-After w = After-bind (
      After-imp
        (λ u w' h.
          let by = ap (λ t. t.approver_id) (Committed-row h.0) ∙ h.0.allowed.1 in
          apply_granted u w' h.0.result (cc (Committed-status h.0 h.0.allowed.0)) by (λ p.
            approved_by h.0.allowed.0 h.0.allowed.1
              (ap (λ t. t.requester_id) (sym (Committed-row h.0)) ∙ p)))
        (on_db-After (approve_tx-After id actor w.conn approver)))

  -- An approval that succeeds answers the ticket as it stands in the table: active, approved by the
  -- approver given, who is not the requester, and with its forward recorded.
  pub approve-Granted :
      (w : World G S) (u : YusuiTicket)
      → (approve e id approver actor w).0 ≡ ok u
      → Granted id approver u (approve e id approver actor w).1
  approve-Granted w u h = After-ok (approve-After w) u h
