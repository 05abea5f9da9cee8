-- ===== src/Policy/Scheduler.antt =====
-- The background half of server/internal/policy/engine.go: expiry, and the forward addresses after a
-- restart of the server or of an agent. A loop over rows is a recursion on the list.
use yusui.Prelude.{
  ℕ, zero, suc, ◌+◌, Bool, true, false, Option, none, some, List, [], ◌∷◌, String, if◌then◌else◌,
  ◌==◌,
}
use yusui.Exec.{Result, ok, err, Exec, pure, attempt, ◌>>=◌, ◌>>◌}
use yusui.Store.Rows.{YusuiTicket, YusuiPolicyBinding, Actor}
use yusui.Store.Tickets.{list_expired_active_tickets, list_active_tickets}
use yusui.Store.Catalog.{list_assets_by_ids, get_binding}
use yusui.Policy.World.{Engine, World, on_db, on_gw, set_forward, clear_forward, forward_known}
use yusui.Policy.Tx.{build_targets}
use yusui.Policy.Engine.{apply_input, revoke}

abbrev pub system_actor : String → Actor
system_actor id = record { type = "system"; id = id }

abbrev pub counts {ℓ} : {A : Type ℓ} → Result A → ℕ → ℕ
counts (ok a) n = n + 1
counts (err x) n = n

-- pgtype.Timestamptz: the zero time stands for NULL.
abbrev pub time_or_zero : Option ℕ → ℕ
time_or_zero none = 0
time_or_zero (some at) = at

abbrev pub is_bound_to : ℕ → Result YusuiPolicyBinding → Bool
is_bound_to agent (err x) = false
is_bound_to agent (ok b) = b.agent_id == agent

module _ {G S : Type 0} where
  unfoldable pub record_forward : ℕ → Result String → Exec (World G S) (Unit {0})
  record_forward id (err x) = pure tt
  record_forward id (ok fwd) = set_forward id fwd

  unfoldable pub clear_bound : ℕ → ℕ → List YusuiTicket → Exec (World G S) ℕ
  clear_bound agent n [] = pure n
  clear_bound agent n (t ∷ ts) = do
    b ← attempt (on_db (get_binding t.id))
    if is_bound_to agent b then clear_forward t.id else pure tt
    clear_bound agent (if is_bound_to agent b then n + 1 else n) ts

module _ {G S : Type 0} (e : Engine G S) where
  -- The loop of ExpireDue: a ticket whose revoke fails is logged and passed over.
  unfoldable pub revoke_all : ℕ → List YusuiTicket → Exec (World G S) ℕ
  revoke_all n [] = pure n
  revoke_all n (t ∷ ts) = do
    r ← attempt (revoke e t.id "expired" (system_actor "scheduler"))
    revoke_all (counts r n) ts

  unfoldable pub expire_due : Exec (World G S) ℕ
  unfolding revoke_all
  expire_due = do due ← on_db list_expired_active_tickets; revoke_all 0 due

  unfoldable pub reapply : YusuiTicket → Exec (World G S) String
  reapply t = do
    b ← on_db (get_binding t.id)
    assets ← on_db (list_assets_by_ids t.frozen_asset_ids)
    on_gw (
        e.gateway.apply_rule (
          apply_input e b.agent_rule_id b.agent_id (build_targets assets t.ports t.protocol)
            (time_or_zero t.expires_at)))

  unfoldable pub rebuild_one : YusuiTicket → Exec (World G S) (Result String)
  unfolding reapply record_forward
  rebuild_one t = do r ← attempt (reapply t); record_forward t.id r; pure r

  unfoldable pub rebuild_all : ℕ → List YusuiTicket → Exec (World G S) ℕ
  unfolding rebuild_one
  rebuild_all n [] = pure n
  rebuild_all n (t ∷ ts) = λ w. elim (forward_known t.id w) [
    | true ↦ rebuild_all n ts w
    | false ↦ (rebuild_one t >>= λ r. rebuild_all (counts r n) ts) w
  ]

  unfoldable pub rebuild_forwards : Exec (World G S) ℕ
  unfolding rebuild_all
  rebuild_forwards = do active ← on_db list_active_tickets; rebuild_all 0 active

  unfoldable pub reconnected : ℕ → ℕ → Exec (World G S) (Unit {0})
  reconnected agent zero = pure tt
  reconnected agent (suc n) = attempt (rebuild_forwards) >> pure tt

  unfoldable pub reapply_bound : ℕ → Exec (World G S) (Unit {0})
  reapply_bound agent = do
    active ← on_db list_active_tickets
    cleared ← clear_bound agent 0 active
    reconnected agent cleared

  -- Errors are logged: the caller sees none.
  unfoldable pub on_agent_reconnect : ℕ → Exec (World G S) (Unit {0})
  unfolding clear_bound reconnected reapply_bound
  on_agent_reconnect agent = attempt (reapply_bound agent) >> pure tt

  -- One pass of the scheduler: what it returns is only logged.
  unfoldable pub scheduler_pass : Exec (World G S) (Unit {0})
  scheduler_pass = do attempt expire_due; attempt rebuild_forwards; pure tt
