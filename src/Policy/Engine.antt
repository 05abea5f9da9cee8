-- ===== src/Policy/Engine.antt =====
-- The operations of server/internal/policy/engine.go that a request makes: submit, approve, reject,
-- apply and revoke, each with its database calls, its calls of the gateway and of the sessions, in
-- the order of the source and with its early returns. Errors that are only logged are dropped.
use Prim.Native.String.{◌++◌}
use yusui.Prelude.{ℕ, ◌+◌, not, none, some, List, String, if◌then◌else◌, length}
use yusui.Exec.{
  Result, ok, err, Exec, pure, raise, attempt, ◌>>=◌, ◌>>◌, not_found, conflict, validation,
}
use yusui.Store.Rows.{YusuiTicket, YusuiPolicyBinding, Status, Actor, RuleId}
use yusui.Store.Tickets.{get_ticket_by_id}
use yusui.Store.Catalog.{
  get_project_by_id, list_assets_by_ids, get_primary_agent_for_project, get_binding,
}
use yusui.Gateway.{ApplyInput, Target}
use yusui.Policy.World.{Engine, World, on_db, on_gw, on_shell, time_now, set_forward, clear_forward}
use yusui.Policy.Transition.{same_status}
use yusui.Policy.Tx.{
  SubmitInput, submit_checks, submit_tx, or_else, approve_tx, reject_tx, build_targets, rule_id,
  to_addrs, apply_failed_tx, expiry, activate_tx, revoke_tx, revoke_pending_tx, close_tx,
}

module _ {G S : Type 0} where
  unfoldable pub finish_revoke :
      ℕ → String → Actor → Result (Unit {0}) → Exec (World G S) (Unit {0})
  finish_revoke id reason actor (err x) = do attempt (on_db (revoke_pending_tx id actor)); raise x
  finish_revoke id reason actor (ok _) = do
    clear_forward id
    on_db (close_tx id reason actor)
    pure tt

module _ {G S : Type 0} (e : Engine G S) where
  unfoldable pub mint : Exec (World G S) ℕ
  mint w = (ok (e.ulid w.minted), record w { minted = w.minted + 1 })

  unfoldable pub submit : SubmitInput → Actor → Exec (World G S) YusuiTicket
  submit i actor = if not (submit_checks i) then raise validation else do
    or_else validation (on_db (get_project_by_id i.project_id))
    pub_id ← mint
    on_db (submit_tx pub_id i actor)

  -- What Apply sends for a ticket: `apply_input` is the argument of `ApplyRule`.
  unfoldable pub apply_input : RuleId → ℕ → List Target → ℕ → ApplyInput
  apply_input rid agent targets expires = record {
    rule_id = rid;
    agent_id = agent;
    src_peer_ips = e.src_peer_ips;
    targets = targets;
    expires_at = expires;
  }

  -- The two ends of Apply, after the gateway has answered.
  unfoldable pub after_apply :
      ℕ → Actor → ℕ → ApplyInput → Result String → Exec (World G S) (Unit {0})
  after_apply id actor n i (err x) = do attempt (on_db (apply_failed_tx id actor)); raise x
  after_apply id actor n i (ok fwd) = do
    set_forward id fwd
    on_db (
        activate_tx id actor i.agent_id i.rule_id n i.expires_at
          (to_addrs e.parse_addr e.src_peer_ips))
    pure tt

  unfoldable pub apply_ticket : ℕ → Actor → YusuiTicket → Exec (World G S) (Unit {0})
  apply_ticket id actor t = do
    agent ← or_else validation (on_db (get_primary_agent_for_project t.project_id))
    assets ← on_db (list_assets_by_ids t.frozen_asset_ids)
    now ← time_now
    let targets = build_targets assets t.ports t.protocol
    let i = apply_input (rule_id t) agent.id targets (expiry now t.duration_sec)
    fwd ← attempt (on_gw (e.gateway.apply_rule i))
    after_apply id actor (length targets) i fwd

  unfoldable pub apply : ℕ → Actor → Exec (World G S) (Unit {0})
  unfolding apply_ticket
  apply id actor = do
    t ← or_else not_found (on_db (get_ticket_by_id id))
    if same_status t.status Status.approved then apply_ticket id actor t else raise conflict

  unfoldable pub approve : ℕ → ℕ → Actor → Exec (World G S) YusuiTicket
  approve id approver actor = do
    on_db (approve_tx id approver actor)
    apply id actor
    on_db (get_ticket_by_id id)

  unfoldable pub reject : ℕ → ℕ → String → Actor → Exec (World G S) YusuiTicket
  reject id approver reason actor = on_db (reject_tx id approver reason actor)

  -- `if e.closer != nil`: the error of ForceCloseByTicket is only logged.
  unfoldable pub close_sessions : ℕ → String → Exec (World G S) (Unit {0})
  close_sessions id reason = elim e.closer [
    | none ↦ pure tt
    | some c ↦ attempt (on_shell (c.force_close_by_ticket id ("ticket " ++ reason))) >> pure tt
  ]

  -- Without a binding there is no rule to remove.
  unfoldable pub revoke_rule_of : Result YusuiPolicyBinding → Exec (World G S) (Unit {0})
  revoke_rule_of (err x) = pure tt
  revoke_rule_of (ok b) = on_gw (e.gateway.revoke_rule b.agent_id b.agent_rule_id)

  unfoldable pub revoke : ℕ → String → Actor → Exec (World G S) (Unit {0})
  unfolding close_sessions revoke_rule_of finish_revoke
  revoke id reason actor = do
    t ← on_db (revoke_tx id reason actor)
    close_sessions t.id reason
    b ← attempt (on_db (get_binding t.id))
    gone ← attempt (revoke_rule_of b)
    finish_revoke id reason actor gone
