-- ===== src/Policy/Refines.antt =====
-- Refinement: every operation of the engine, whichever database calls fail and whatever the gateway
-- and the sessions answer, takes the tables along steps of the abstract workflow.
use yusui.Store.Catalog.{
  get_project_by_id, get_primary_agent_for_project, get_binding, list_assets_by_ids,
}
use yusui.Store.Tickets.{get_ticket_by_id, list_active_tickets, list_expired_active_tickets}
use yusui.Policy.Tx.{
  SubmitInput, submit_tx, approve_tx, reject_tx, apply_failed_tx, activate_tx, revoke_tx,
  revoke_pending_tx, close_tx,
}
use yusui.Prelude.{ℕ, ◌≡◌, refl, sym, subst, ◌⊎◌, inl, inr, Bool-cases, List, String}
use yusui.Exec.{Error, Result, ok, err}
use yusui.Exec.After.{After, After-ok, Relates, After-imp}
use yusui.Store.Rows.{YusuiTicket, Status, Actor, Action, Payload, RuleId}
use yusui.Store.Conn.{Tables, Conn, Db, query, read, in_tx}
use yusui.Store.Laws.{in_tx-err}
use yusui.Store.Lookup.{find_self}
use yusui.Policy.Transition.{transition}
use yusui.Policy.Step.{Step, Evolves, here, step}
use yusui.Policy.Commits.{Committed, Committed-imp}
use yusui.Policy.Moves.{Moves}
use yusui.Policy.Changes.{
  approve_tx-After, reject_tx-After, apply_failed_tx-After, activate_tx-After, revoke_tx-After,
  revoke_pending_tx-After, close_tx-After,
}
use yusui.Policy.Submission.{submit_tx-After}

-- What a database operation may do to the tables.
abbrev pub Refining : {A : Type 0} → Db A → Type 0
Refining m = Relates (λ c d. Evolves c.tables d.tables) m

same_tables : {c d : Tables} → d ≡ c → Evolves c d
same_tables {c} e = subst (Evolves c) (sym e) here

Result-cases : {A : Type 0} (r : Result A) → ((a : A) × (r ≡ ok a)) ⊎ ((x : Error) × (r ≡ err x))
Result-cases (ok a) = inl (a, refl)
Result-cases (err x) = inr (x, refl)

Committed-Step :
    {id : ℕ} {actor : Actor} {act : Action} {payload : Payload} {d : Tables} {u : YusuiTicket}
    {d' : Tables}
    → Committed (Moves act) id actor act payload d u d'
    → Step d d'
Committed-Step {id} {actor} {act} {payload} {d} h =
    Step.moves h.old h.ts actor act payload h.edit (find_self id d.tickets h.old h.found) h.allowed
      h.rows h.log

-- A transaction whose success is a step refines the workflow: it fails without a trace.
in_tx-Refining :
    {A : Type 0} (body : Db A)
    → ((c : Conn) → After (λ a d. Step c.tables d.tables) (in_tx body) c)
    → Refining (in_tx body)
in_tx-Refining body good = record {
  at = λ c. elim (Result-cases (in_tx body c).0) [
    | inl (a, fine) ↦ step here (After-ok (good c) a fine)
    | inr (x, failed) ↦ same_tables (in_tx-err body c x failed)
  ];
}

transition-Refining :
    (id : ℕ) (from : Status) (act : Action) (actor : Actor) (payload : Payload)
    (mutate : YusuiTicket → Db (Unit {0}))
    → ((c : Conn)
        → After
            (λ u d. Committed (Moves act) id actor act payload c.tables u d.tables)
            (transition id from act actor payload mutate)
            c)
    → Refining (transition id from act actor payload mutate)
unfolding transition
transition-Refining id from act actor payload mutate good =
    in_tx-Refining _ (λ c. After-imp (λ u d h. Committed-Step h) (good c))

read-Refining : {A : Type 0} (f : Conn → Result A) → Refining (read f)
unfolding query
read-Refining f = record {
  at = λ c. elim (Bool-cases (c.fails c.calls)) [ inl down ↦ rw down here | inr up ↦ rw up here ];
}

module _ (id : ℕ) (actor : Actor) where
  pub approve_tx-Refining : (a : ℕ) → Refining (approve_tx id a actor)
  unfolding approve_tx
  approve_tx-Refining a =
      transition-Refining id _ _ actor _ _
        (λ c. After-imp (λ u d h. Committed-imp (λ t e m. m.0) h) (approve_tx-After id actor c a))

  pub reject_tx-Refining : (a : ℕ) (reason : String) → Refining (reject_tx id a reason actor)
  unfolding reject_tx
  reject_tx-Refining a reason =
      transition-Refining id _ _ actor _ _ (λ c. reject_tx-After id actor c a reason)

  pub apply_failed_tx-Refining : Refining (apply_failed_tx id actor)
  unfolding apply_failed_tx
  apply_failed_tx-Refining = transition-Refining id _ _ actor _ _ (apply_failed_tx-After id actor)

  pub activate_tx-Refining :
      (agent : ℕ) (rid : RuleId) (n expires : ℕ) (addrs : List String)
      → Refining (activate_tx id actor agent rid n expires addrs)
  unfolding activate_tx
  activate_tx-Refining agent rid n expires addrs =
      transition-Refining id _ _ actor _ _
        (λ c. activate_tx-After id actor c agent rid n expires addrs)

  pub revoke_tx-Refining : (reason : String) → Refining (revoke_tx id reason actor)
  unfolding revoke_tx
  revoke_tx-Refining reason =
      transition-Refining id _ _ actor _ _ (λ c. revoke_tx-After id actor c reason)

  pub revoke_pending_tx-Refining : Refining (revoke_pending_tx id actor)
  unfolding revoke_pending_tx
  revoke_pending_tx-Refining =
      transition-Refining id _ _ actor _ _ (revoke_pending_tx-After id actor)

  pub close_tx-Refining : (reason : String) → Refining (close_tx id reason actor)
  unfolding close_tx
  close_tx-Refining reason =
      transition-Refining id _ _ actor _ _ (λ c. close_tx-After id actor c reason)

pub submit_tx-Refining :
    (pub_id : ℕ) (i : SubmitInput) (actor : Actor) → Refining (submit_tx pub_id i actor)
unfolding submit_tx
submit_tx-Refining pub_id i actor = in_tx-Refining _ (λ c. submit_tx-After pub_id i actor c)

pub get_ticket-Refining : (id : ℕ) → Refining (get_ticket_by_id id)
unfolding get_ticket_by_id
get_ticket-Refining id = read-Refining _

pub get_project-Refining : (id : ℕ) → Refining (get_project_by_id id)
unfolding get_project_by_id
get_project-Refining id = read-Refining _

pub get_primary-Refining : (id : ℕ) → Refining (get_primary_agent_for_project id)
unfolding get_primary_agent_for_project
get_primary-Refining id = read-Refining _

pub get_binding-Refining : (id : ℕ) → Refining (get_binding id)
unfolding get_binding
get_binding-Refining id = read-Refining _

pub list_assets-Refining : (ids : List ℕ) → Refining (list_assets_by_ids ids)
unfolding list_assets_by_ids
list_assets-Refining ids = read-Refining _

pub list_active-Refining : Refining list_active_tickets
unfolding list_active_tickets
list_active-Refining = read-Refining _

pub list_expired-Refining : Refining list_expired_active_tickets
unfolding list_expired_active_tickets
list_expired-Refining = read-Refining _
