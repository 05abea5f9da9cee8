-- ===== src/Policy/Outcomes.antt =====
-- What Submit, Apply and Revoke of server/internal/policy/engine.go have achieved when they succeed.
use yusui.Prelude.{
  ℕ, ◌≡◌, refl, sym, ap, subst, ◌∙◌, some, String, is_some, get-put, get-delete, ==_refl, get, true,
  false,
}
use yusui.Exec.{Result, ok, err, conflict}
use yusui.Exec.After.{
  Holds, After, After-imp, After-pure, After-raise, After-if, After-bind, After-bind_any, After-ok,
}
use yusui.Store.Rows.{YusuiTicket, Status, Actor, Action, Payload}
use yusui.Store.Conn.{Tables, Conn, Db}
use yusui.Store.Tickets.{find}
use yusui.Store.Lookup.{find-update_self, find_self, find-id}
use yusui.Gateway.{ApplyInput}
use yusui.Policy.World.{Engine, World, on_db, set_forward, clear_forward, forward_known}
use yusui.Policy.Tx.{close_tx}
use yusui.Policy.Step.{Edit, edited, Move}
use yusui.Policy.Commits.{Committed}
use yusui.Policy.Changes.{activate_tx-After, close_tx-After}
use yusui.Policy.Transition.{same_status}
use yusui.Policy.Tx.{SubmitInput, submit_checks}
use yusui.Policy.Submission.{Submitted, submit_tx-Submitted}
use yusui.Exec.{validation, raise}
use yusui.Prelude.{not, arith}
use yusui.Policy.Engine.{submit, after_apply, apply_ticket, apply, finish_revoke, revoke}
use yusui.Policy.Log.{outcome, edited-id, Move-outcome}

module _ {G S A : Type 0} where
  on_db-Holds :
      (Q : A → Conn → Type 0) (w : World G S) (r : Result A) (c : Conn)
      → Holds Q r c
      → Holds (λ a w'. Q a w'.conn × (w'.forwards ≡ w.forwards)) r (record w { conn = c })
  on_db-Holds Q w (ok a) c h = (h, refl)
  on_db-Holds Q w (err x) c h = tt

  -- A database call leaves the forward map alone.
  pub on_db-After :
      {Q : A → Conn → Type 0} {m : Db A} {w : World G S}
      → After Q m w.conn
      → After (λ a w'. Q a w'.conn × (w'.forwards ≡ w.forwards)) (on_db m) w
  unfolding on_db
  on_db-After {Q} {m} {w} h = record { holds = on_db-Holds Q w (m w.conn).0 (m w.conn).1 h.holds }

module _ {P : YusuiTicket → Edit → Type 0} {id : ℕ} {actor : Actor} {act : Action}
    {payload : Payload} {d d' : Tables} {u : YusuiTicket}
    (h : Committed P id actor act payload d u d') where
  -- The row that a committed move leaves under its id.
  pub Committed-row : u ≡ edited h.edit h.old
  Committed-row =
      let moved : find h.old.id d'.tickets ≡ some (edited h.edit h.old) =
        ap (find h.old.id) h.rows
        ∙ find-update_self h.old.id (edited h.edit) d.tickets h.old (edited-id h.edit)
            (find_self id d.tickets h.old h.found) in
      let here : find h.old.id d'.tickets ≡ some u =
        subst (λ k. find k d'.tickets ≡ some u) (sym (find-id id d.tickets h.old h.found))
          h.result in
      cc (moved, here)

  pub Committed-status : Move h.old act h.edit → outcome act ≡ some u.status
  Committed-status m = Move-outcome m ∙ ap (λ t. some t.status) (sym Committed-row)

-- What a revoke that succeeds has done: the ticket is closed and its forward forgotten.
pub record Revoked {G S : Type 0} (id : ℕ) (w : World G S) : Type 0 where
  pub row : YusuiTicket
  pub found : find id w.conn.tickets ≡ some row
  pub closed : row.status ≡ Status.closed
  pub forgotten : forward_known id w ≡ false

-- What an apply that succeeds has done: the ticket is active and its forward recorded.
pub record Applied {G S : Type 0} (id : ℕ) (w : World G S) : Type 0 where
  pub row : YusuiTicket
  pub found : find id w.conn.tickets ≡ some row
  pub active : row.status ≡ Status.active
  pub known : forward_known id w ≡ true

module _ {G S : Type 0} (id : ℕ) (actor : Actor) where
  close_tx-Revoked :
      (reason : String) (w : World G S)
      → forward_known id w ≡ false
      → After (λ _ w'. Revoked id w') (on_db (close_tx id reason actor)) w
  unfolding forward_known
  close_tx-Revoked reason w gone =
      After-imp
        (λ u w' h. record {
          row = u;
          found = h.0.result;
          closed = cc (Committed-status h.0 h.0.allowed);
          forgotten = ap (λ m. is_some (get id m)) h.1 ∙ gone;
        })
        (on_db-After (close_tx-After id actor w.conn reason))

  finish_revoke-After :
      (reason : String) (r : Result (Unit {0})) (w : World G S)
      → After (λ _ w'. Revoked id w') (finish_revoke id reason actor r) w
  unfolding finish_revoke clear_forward forward_known
  finish_revoke-After reason (err x) w = After-bind_any _ (λ _. After-raise x _)
  finish_revoke-After reason (ok u) w =
      After-bind_any _ (λ _.
        After-bind (After-imp (λ t w' h. After-pure tt w' h) (close_tx-Revoked reason _ gone)))
    where
      gone : forward_known id (clear_forward id w).1 ≡ false
      gone = rw (get-delete id id w.forwards, ==_refl id) refl

module _ {G S : Type 0} (e : Engine G S) (id : ℕ) (actor : Actor) where
  revoke-After :
      (reason : String) (w : World G S) → After (λ _ w'. Revoked id w') (revoke e id reason actor) w
  unfolding revoke
  revoke-After reason w = After-bind_any _ λ t.
      After-bind_any _ λ _.
        After-bind_any _ λ b. After-bind_any _ λ gone. finish_revoke-After id actor reason gone _

  after_apply-After :
      (n : ℕ) (i : ApplyInput) (r : Result String) (w : World G S)
      → After (λ _ w'. Applied id w') (after_apply e id actor n i r) w
  unfolding after_apply set_forward forward_known
  after_apply-After n i (err x) w = After-bind_any _ (λ _. After-raise x _)
  after_apply-After n i (ok fwd) w = After-bind_any _ (λ _. After-bind (
      After-imp
        (λ u w' h. After-pure tt w' (record {
          row = u;
          found = h.0.result;
          active = cc (Committed-status h.0 h.0.allowed);
          known = in_force w' h.1;
        }))
        (on_db-After (activate_tx-After id actor _ _ _ _ _ _))))
    where
      in_force :
          (w' : World G S)
          → w'.forwards ≡ (set_forward id fwd w).1.forwards
          → forward_known id w' ≡ true
      in_force w' h =
          ap (λ m. is_some (get id m)) h ∙ rw (get-put id id fwd w.forwards, ==_refl id) refl

  apply_ticket-After :
      (t : YusuiTicket) (w : World G S)
      → After (λ _ w'. Applied id w') (apply_ticket e id actor t) w
  unfolding apply_ticket
  apply_ticket-After t w = After-bind_any _ λ agent.
      After-bind_any _
        λ assets. After-bind_any _ λ now. After-bind_any _ λ fwd. after_apply-After _ _ fwd _

  pub apply-After : (w : World G S) → After (λ _ w'. Applied id w') (apply e id actor) w
  unfolding apply
  apply-After w = After-bind_any _ λ t.
      After-if (same_status t.status Status.approved) {m = apply_ticket e id actor t}
        (λ _. apply_ticket-After t _) (λ _. After-raise conflict _)

  -- A revoke that succeeds has closed the ticket and forgotten its forward.
  pub revoke-Revoked :
      (reason : String) (w : World G S)
      → (revoke e id reason actor w).0 ≡ ok tt
      → Revoked id (revoke e id reason actor w).1
  revoke-Revoked reason w h = After-ok (revoke-After reason w) tt h

  -- An apply that succeeds has made the ticket active and recorded its forward.
  pub apply-Applied :
      (w : World G S) → (apply e id actor w).0 ≡ ok tt → Applied id (apply e id actor w).1
  apply-Applied w h = After-ok (apply-After w) tt h

module _ {G S : Type 0} (e : Engine G S) (i : SubmitInput) (actor : Actor) where
  submit-After :
      (w : World G S)
      → After (λ t w'. (submit_checks i ≡ true) × Submitted i t w'.conn.tables) (submit e i actor) w
  unfolding submit
  submit-After w =
      After-if (not (submit_checks i)) {m = raise validation} (λ _. After-raise _ _)
        (λ fine. After-bind_any _ λ _. After-bind_any _ λ pub_id.
          After-imp (λ t w' h. (ground (arith, fine), h.0))
            (on_db-After (submit_tx-Submitted pub_id i actor _)))

  -- A Submit that succeeds was for a request that passes the checks, and answers a pending ticket of
  -- the requester, the project, the assets, the ports and the duration asked for, which is found in
  -- the table under its id.
  pub submit-Submitted :
      (w : World G S) (t : YusuiTicket)
      → (submit e i actor w).0 ≡ ok t
      → (submit_checks i ≡ true) × Submitted i t (submit e i actor w).1.conn.tables
  submit-Submitted w t h = After-ok (submit-After w) t h
