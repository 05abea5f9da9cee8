-- ===== src/Policy/Workflow.antt =====
-- Refinement of the abstract workflow by the whole operations of server/internal/policy/engine.go.
use yusui.Prelude.{ℕ, not, String, Option-cases, inl, inr}
use yusui.Exec.{Error, Result, ok, err, Exec, pure, raise, ◌>>=◌}
use yusui.Exec.After.{Relates, Relates-bind, Relates-attempt, Relates-if}
use yusui.Store.Rows.{YusuiTicket, YusuiPolicyBinding, Actor}
use yusui.Store.Conn.{Db}
use yusui.Gateway.{ApplyInput}
use yusui.Policy.World.{Engine, World, on_db, on_gw, on_shell, time_now, set_forward, clear_forward}
use yusui.Policy.Transition.{same_status}
use yusui.Policy.Step.{Evolves, here, Evolves-trans}
use yusui.Policy.Tx.{SubmitInput, submit_checks, or_else}
use yusui.Policy.Refines.{
  Refining, get_project-Refining, get_ticket-Refining, get_primary-Refining, list_assets-Refining,
  get_binding-Refining, submit_tx-Refining, approve_tx-Refining, reject_tx-Refining,
  apply_failed_tx-Refining, activate_tx-Refining, revoke_tx-Refining, revoke_pending_tx-Refining,
  close_tx-Refining,
}
use yusui.Policy.Engine.{
  mint, submit, after_apply, apply_ticket, apply, approve, reject, close_sessions, revoke_rule_of,
  finish_revoke, revoke,
}

-- What an operation does to the tables of the world it runs in.
abbrev pub Works : {G S A : Type 0} → Exec (World G S) A → Type 0
Works m = Relates (λ v w. Evolves v.conn.tables w.conn.tables) m

module _ {G S : Type 0} where
  infixl 5 ◌▸◌
  pub ◌▸◌ :
      {A B : Type 0} {m : Exec (World G S) A} {f : A → Exec (World G S) B}
      → Works m
      → ((a : A) → Works (f a))
      → Works (m >>= f)
  h ▸ k = Relates-bind (λ w. here) (λ u v w p q. Evolves-trans p q) h k

  pub on_db-Works : {A : Type 0} {m : Db A} → Refining m → Works {G = G} {S = S} (on_db m)
  unfolding on_db
  on_db-Works h = record { at = λ w. h.at w.conn }

  pub or_else-Works :
      {A : Type 0} (x : Error) {m : Exec (World G S) A} → Works m → Works (or_else x m)
  unfolding or_else
  or_else-Works x h = record { at = λ w. h.at w }

  pub on_gw-Works : {A : Type 0} (m : Exec G A) → Works {G = G} {S = S} (on_gw m)
  unfolding on_gw
  on_gw-Works m = record { at = λ w. here }

  pub on_shell-Works : {A : Type 0} (m : Exec S A) → Works {G = G} {S = S} (on_shell m)
  unfolding on_shell
  on_shell-Works m = record { at = λ w. here }

  pub pure-Works : {A : Type 0} (a : A) → Works {G = G} {S = S} (pure a)
  pure-Works a = record { at = λ w. here }

  raise-Works : {A : Type 0} (x : Error) → Works {G = G} {S = S} {A = A} (raise x)
  raise-Works x = record { at = λ w. here }

  pub time_now-Works : Works {G = G} {S = S} time_now
  unfolding time_now
  time_now-Works = record { at = λ w. here }

  pub set_forward-Works : (id : ℕ) (addr : String) → Works {G = G} {S = S} (set_forward id addr)
  unfolding set_forward
  set_forward-Works id addr = record { at = λ w. here }

  pub clear_forward-Works : (id : ℕ) → Works {G = G} {S = S} (clear_forward id)
  unfolding clear_forward
  clear_forward-Works id = record { at = λ w. here }

module _ {G S : Type 0} (e : Engine G S) where
  mint-Works : Works (mint e)
  unfolding mint
  mint-Works = record { at = λ w. here }

  pub submit-Works : (i : SubmitInput) (actor : Actor) → Works (submit e i actor)
  unfolding submit
  submit-Works i actor = Relates-if (not (submit_checks i)) (raise-Works _) (
      or_else-Works _ (on_db-Works (get_project-Refining _)) ▸ λ _.
      mint-Works ▸ λ pub_id. on_db-Works (submit_tx-Refining pub_id i actor))

  after_apply-Works :
      (id : ℕ) (actor : Actor) (n : ℕ) (i : ApplyInput) (r : Result String)
      → Works (after_apply e id actor n i r)
  unfolding after_apply
  after_apply-Works id actor n i (err x) =
      Relates-attempt (on_db-Works (apply_failed_tx-Refining id actor)) ▸ λ _. raise-Works x
  after_apply-Works id actor n i (ok fwd) = set_forward-Works id fwd ▸ λ _.
      on_db-Works (activate_tx-Refining id actor _ _ _ _ _) ▸ λ _. pure-Works tt

  apply_ticket-Works :
      (id : ℕ) (actor : Actor) (t : YusuiTicket) → Works (apply_ticket e id actor t)
  unfolding apply_ticket
  apply_ticket-Works id actor t = or_else-Works _ (on_db-Works (get_primary-Refining _)) ▸ λ agent.
      on_db-Works (list_assets-Refining _) ▸ λ assets. time_now-Works ▸ λ now.
      Relates-attempt (on_gw-Works _) ▸ λ fwd. after_apply-Works id actor _ _ fwd

  pub apply-Works : (id : ℕ) (actor : Actor) → Works (apply e id actor)
  unfolding apply
  apply-Works id actor = or_else-Works _ (on_db-Works (get_ticket-Refining id)) ▸ λ t.
      Relates-if (same_status t.status _) (apply_ticket-Works id actor t) (raise-Works _)

  pub approve-Works : (id approver : ℕ) (actor : Actor) → Works (approve e id approver actor)
  unfolding approve
  approve-Works id approver actor = on_db-Works (approve_tx-Refining id actor approver) ▸ λ _.
      apply-Works id actor ▸ λ _. on_db-Works (get_ticket-Refining id)

  pub reject-Works :
      (id approver : ℕ) (reason : String) (actor : Actor)
      → Works (reject e id approver reason actor)
  unfolding reject
  reject-Works id approver reason actor = on_db-Works (reject_tx-Refining id actor approver reason)

  close_sessions-Works : (id : ℕ) (reason : String) → Works (close_sessions e id reason)
  unfolding close_sessions
  close_sessions-Works id reason = elim (Option-cases e.closer) [
    | inl off ↦ rw off (pure-Works tt)
    | inr (c, on) ↦ rw on (Relates-attempt (on_shell-Works _) ▸ λ _. pure-Works tt)
  ]

  revoke_rule_of-Works : (b : Result YusuiPolicyBinding) → Works (revoke_rule_of e b)
  unfolding revoke_rule_of
  revoke_rule_of-Works (ok b) = on_gw-Works _
  revoke_rule_of-Works (err x) = pure-Works tt

  finish_revoke-Works :
      (id : ℕ) (reason : String) (actor : Actor) (r : Result (Unit {0}))
      → Works (finish_revoke {G = G} {S = S} id reason actor r)
  unfolding finish_revoke
  finish_revoke-Works id reason actor (ok u) = clear_forward-Works id ▸ λ _.
      on_db-Works (close_tx-Refining id actor reason) ▸ λ _. pure-Works tt
  finish_revoke-Works id reason actor (err x) =
      Relates-attempt (on_db-Works (revoke_pending_tx-Refining id actor)) ▸ λ _. raise-Works x

  pub revoke-Works : (id : ℕ) (reason : String) (actor : Actor) → Works (revoke e id reason actor)
  unfolding revoke
  revoke-Works id reason actor = on_db-Works (revoke_tx-Refining id actor reason) ▸ λ t.
      close_sessions-Works t.id reason ▸ λ _.
      Relates-attempt (on_db-Works (get_binding-Refining t.id)) ▸ λ b.
      Relates-attempt (revoke_rule_of-Works b) ▸ λ gone. finish_revoke-Works id reason actor gone
