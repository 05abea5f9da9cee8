-- ===== src/Policy/Passes.antt =====
-- Refinement of the abstract workflow by the background half of server/internal/policy/engine.go.
use yusui.Prelude.{ℕ, zero, suc, List, [], ◌∷◌, String, if◌then◌else◌, Bool-cases, inl, inr, ◌+◌}
use yusui.Exec.{Result, ok, err}
use yusui.Exec.After.{Relates-attempt, Relates-if}
use yusui.Store.Rows.{YusuiTicket}
use yusui.Policy.World.{Engine, forward_known}
use yusui.Policy.Refines.{
  list_assets-Refining, get_binding-Refining, list_active-Refining, list_expired-Refining,
}
use yusui.Policy.Scheduler.{
  counts, revoke_all, expire_due, reapply, record_forward, rebuild_one, rebuild_all,
  rebuild_forwards, is_bound_to, clear_bound, reconnected, on_agent_reconnect, scheduler_pass,
}
use yusui.Policy.Workflow.{
  Works, ◌▸◌, revoke-Works, on_db-Works, on_gw-Works, pure-Works, set_forward-Works,
  clear_forward-Works,
}

module _ {G S : Type 0} (e : Engine G S) where
  revoke_all-Works : (n : ℕ) (ts : List YusuiTicket) → Works (revoke_all e n ts)
  unfolding revoke_all
  revoke_all-Works n [] = pure-Works n
  revoke_all-Works n (t ∷ ts) =
      Relates-attempt (revoke-Works e t.id _ _) ▸ λ r. revoke_all-Works (counts r n) ts

  expire_due-Works : Works (expire_due e)
  unfolding expire_due
  expire_due-Works = on_db-Works list_expired-Refining ▸ λ due. revoke_all-Works 0 due

  reapply-Works : (t : YusuiTicket) → Works (reapply e t)
  unfolding reapply
  reapply-Works t = on_db-Works (get_binding-Refining _) ▸ λ b.
      on_db-Works (list_assets-Refining _) ▸ λ assets. on_gw-Works _

  record_forward-Works : (id : ℕ) (r : Result String) → Works (record_forward {G = G} {S = S} id r)
  unfolding record_forward
  record_forward-Works id (ok fwd) = set_forward-Works id fwd
  record_forward-Works id (err x) = pure-Works tt

  rebuild_one-Works : (t : YusuiTicket) → Works (rebuild_one e t)
  unfolding rebuild_one
  rebuild_one-Works t =
      Relates-attempt (reapply-Works t) ▸ λ r. record_forward-Works t.id r ▸ λ _. pure-Works r

  rebuild_all-Works : (n : ℕ) (ts : List YusuiTicket) → Works (rebuild_all e n ts)
  unfolding rebuild_all
  rebuild_all-Works n [] = pure-Works n
  rebuild_all-Works n (t ∷ ts) =
      let rebuilt = rebuild_one-Works t ▸ λ r. rebuild_all-Works (counts r n) ts in
      record {
        at = λ w. elim (Bool-cases (forward_known t.id w)) [
          | inl known ↦ rw (known, rebuild_all) ((rebuild_all-Works n ts).at w)
          | inr missing ↦ rw (missing, rebuild_all) (rebuilt.at w)
        ];
      }

  rebuild_forwards-Works : Works (rebuild_forwards e)
  unfolding rebuild_forwards
  rebuild_forwards-Works = on_db-Works list_active-Refining ▸ λ active. rebuild_all-Works 0 active

  clear_bound-Works :
      (agent n : ℕ) (ts : List YusuiTicket) → Works (clear_bound {G = G} {S = S} agent n ts)
  unfolding clear_bound
  clear_bound-Works agent n [] = pure-Works n
  clear_bound-Works agent n (t ∷ ts) = Relates-attempt (on_db-Works (get_binding-Refining _)) ▸ λ b.
      Relates-if (is_bound_to agent b) (clear_forward-Works t.id) (pure-Works tt) ▸ λ _.
      clear_bound-Works agent (if is_bound_to agent b then n + 1 else n) ts

  reconnected-Works : (agent n : ℕ) → Works (reconnected e agent n)
  unfolding reconnected
  reconnected-Works agent zero = pure-Works tt
  reconnected-Works agent (suc n) = Relates-attempt rebuild_forwards-Works ▸ λ _. pure-Works tt

  pub on_agent_reconnect-Works : (agent : ℕ) → Works (on_agent_reconnect e agent)
  unfolding on_agent_reconnect
  on_agent_reconnect-Works agent =
      Relates-attempt (
        on_db-Works list_active-Refining ▸ λ active.
        clear_bound-Works agent 0 active ▸ λ n. reconnected-Works agent n)
      ▸ λ _. pure-Works tt

  pub scheduler_pass-Works : Works (scheduler_pass e)
  unfolding scheduler_pass
  scheduler_pass-Works = Relates-attempt expire_due-Works ▸ λ _.
      Relates-attempt rebuild_forwards-Works ▸ λ _. pure-Works tt
