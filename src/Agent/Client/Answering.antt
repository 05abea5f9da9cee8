-- ===== src/Agent/Client/Answering.antt =====
-- What the agent of agent/internal/control/client.go answers to the commands it is sent.
use yusui.Prelude.{ℕ, ◌≡◌, ◌≢◌, refl, ap, ◌∙◌, List, [], ◌∷◌, ◌++◌, String, ◌⊎◌}
use yusui.Exec.{Error, Result, ok, err}
use yusui.Agent.Messages.{
  ApplyRule, ServerToAgent, apply_rule, revoke_rule, reconcile, drain, AgentToServer, ack_msg,
  reconcile_resp, heartbeat, rule_event, Enforcer,
}
use yusui.Agent.Client.{ack_apply, ack_revoke, apply_from, on_apply, on_message, receive, Round}

-- The commands of the server, and the commands that the agent's messages answer.
abbrev pub commands : List (ℕ × ServerToAgent) → List ℕ
commands [] = []
commands ((_, apply_rule a) ∷ ms) = a.command_id ∷ commands ms
commands ((_, revoke_rule id _) ∷ ms) = id ∷ commands ms
commands ((_, reconcile id) ∷ ms) = id ∷ commands ms
commands ((_, drain) ∷ ms) = commands ms

abbrev pub answered : List AgentToServer → List ℕ
answered [] = []
answered (ack_msg a ∷ ms) = a.command_id ∷ answered ms
answered (reconcile_resp id _ ∷ ms) = id ∷ answered ms
answered (heartbeat _ _ ∷ ms) = answered ms
answered (rule_event _ _ ∷ ms) = answered ms

module _ {E : Type 0} (eng : Enforcer E) where
  ack_apply-answered :
      (id : ℕ) (r : Result String) (ms : List AgentToServer)
      → answered (ack_apply id r ∷ ms) ≡ id ∷ answered ms
  ack_apply-answered id (ok fwd) ms = refl
  ack_apply-answered id (err x) ms = refl

  ack_revoke-answered :
      (id : ℕ) (r : Result (Unit {0})) (ms : List AgentToServer)
      → answered (ack_revoke id r ∷ ms) ≡ id ∷ answered ms
  ack_revoke-answered id (ok _) ms = refl
  ack_revoke-answered id (err x) ms = refl

  apply_from-answered :
      (now : ℕ) (a : ApplyRule) (srcs : List String) (e : E) (ms : List AgentToServer)
      → answered ((apply_from eng now a srcs e).0 ∷ ms) ≡ a.command_id ∷ answered ms
  apply_from-answered now a [] e ms = refl
  apply_from-answered now a (src ∷ srcs) e ms = ack_apply-answered a.command_id _ ms

  -- Whatever the enforcer does, each command gets one answer with its own id, and the answers keep
  -- the order of the commands.
  pub receive-answered :
      (ms : List (ℕ × ServerToAgent)) (e : E) → answered (receive eng ms e).0 ≡ commands ms
  unfolding receive on_message
  receive-answered [] e = refl
  receive-answered ((now, apply_rule a) ∷ ms) e =
      apply_from-answered now a a.src_peer_ips e _
      ∙ ap (λ l. a.command_id ∷ l) (receive-answered ms (on_apply eng now a e).1)
  receive-answered ((now, revoke_rule id rule) ∷ ms) e =
      ack_revoke-answered id (eng.revoke rule e).0 _
      ∙ ap (λ l. id ∷ l) (receive-answered ms (eng.revoke rule e).1)
  receive-answered ((now, reconcile id) ∷ ms) e = ap (λ l. id ∷ l) (receive-answered ms e)
  receive-answered ((now, drain) ∷ ms) e = receive-answered ms e

-- A session in which the agent waits: the server cannot be reached, or it answers with an enrollment
-- that is neither empty nor approved, or the stream does not open.
pub data Waits (r : Round) : Type 0 where
  unreached : (x : Error) → r.registered ≡ err x → Waits r
  unapproved :
      (enrollment : String)
      → r.registered ≡ ok enrollment
      → enrollment ≢ ""
      → enrollment ≢ "approved"
      → Waits r
  unopened :
      (enrollment : String) (x : Error) → r.registered ≡ ok enrollment → r.stream ≡ err x → Waits r

-- A session in which it works: it is approved, or the server does not know enrollment.
pub record Works (r : Round) : Type 0 where
  pub enrollment : String
  pub registered : r.registered ≡ ok enrollment
  pub admitted : (enrollment ≡ "") ⊎ (enrollment ≡ "approved")
  pub opened : r.stream ≡ ok tt

-- `ks` has the sessions of `rs` in which the agent works.
pub data Working : List Round → List Round → Type 0 where
  over : Working [] []
  waits : {rs ks : List Round} (r : Round) → Waits r → Working rs ks → Working (r ∷ rs) ks
  works : {rs ks : List Round} (r : Round) → Works r → Working rs ks → Working (r ∷ rs) (r ∷ ks)

-- What the server commands in these sessions.
abbrev pub orders : List Round → List ℕ
orders [] = []
orders (r ∷ rs) = commands r.arriving ++ orders rs
