-- ===== src/Agent/Client.antt =====
-- agent/internal/control/client.go: the session of an agent with the server, over the interface of its
-- enforcer. A time is what the clock shows when a message is handled.
pub mod Answering
use yusui.Prelude.{
  ℕ, Bool, true, false, not, ◌&&◌, Option, none, some, List, [], ◌∷◌, ◌++◌, String, str_eq,
  if◌then◌else◌, length,
}
use yusui.Exec.{Error, Result, ok, err, gateway_error}
use yusui.Agent.Forward.{ttl_of}
use yusui.Agent.Messages.{
  ApplyRule, ServerToAgent, apply_rule, revoke_rule, reconcile, drain, AckResult, ack_ok,
  ack_failed, AckCommand, AgentToServer, ack_msg, reconcile_resp, heartbeat, Enforcer,
}

abbrev pub ack : ℕ → AckResult → String → AgentToServer
ack id result addr = ack_msg (record { command_id = id; result = result; forward_addr = addr })

-- The acks of an Apply and of a Revoke.
abbrev pub ack_apply : ℕ → Result String → AgentToServer
ack_apply id (ok fwd) = ack id ack_ok fwd
ack_apply id (err _) = ack id ack_failed ""

abbrev pub ack_revoke : ℕ → Result (Unit {0}) → AgentToServer
ack_revoke id (ok _) = ack id ack_ok ""
ack_revoke id (err _) = ack id ack_failed ""

module _ {E : Type 0} (eng : Enforcer E) where
  -- handleApply.
  abbrev pub apply_from : ℕ → ApplyRule → List String → E → AgentToServer × E
  apply_from now a [] e = (ack a.command_id ack_failed "", e)
  apply_from now a (src ∷ srcs) e =
      let r = eng.apply a.rule_id (src ∷ srcs) a.dst_ip a.dst_port (ttl_of a.expires_at now) e in
      (ack_apply a.command_id r.0, r.1)

  unfoldable pub on_apply : ℕ → ApplyRule → E → AgentToServer × E
  on_apply now a e = apply_from now a a.src_peer_ips e

  -- One turn of the receive loop: what is sent back, and the enforcer afterwards.
  unfoldable pub on_message : ℕ → ServerToAgent → E → List AgentToServer × E
  unfolding on_apply
  on_message now (apply_rule a) e = let r = on_apply now a e in (r.0 ∷ [], r.1)
  on_message now (revoke_rule id rule) e =
      let r = eng.revoke rule e in (ack_revoke id r.0 ∷ [], r.1)
  on_message now (reconcile id) e = (reconcile_resp id (eng.active_rule_ids e) ∷ [], e)
  on_message now drain e = ([], e)

  -- The loop over the messages that come before the stream breaks, each with its time.
  unfoldable pub receive : List (ℕ × ServerToAgent) → E → List AgentToServer × E
  unfolding on_message
  receive [] e = ([], e)
  receive ((now, m) ∷ ms) e =
      let r = on_message now m e in let rest = receive ms r.1 in (r.0 ++ rest.0, rest.1)

  -- The heartbeat of a tick, with the status of the overlay.
  abbrev pub beat : String → E → AgentToServer
  beat status e = heartbeat (length (eng.active_rule_ids e)) status

-- What the server and the network do in one session: the answer to Register (its enrollment), whether
-- the context is done in the wait, the outcome of opening the stream, what arrives and how it breaks.
pub record Round : Type 0 where
  pub registered : Result String
  pub canceled : Bool
  pub stream : Result (Unit {0})
  pub arriving : List (ℕ × ServerToAgent)
  pub broken : Error

abbrev pub gated : String → Bool
gated enrollment = not (str_eq enrollment "") && not (str_eq enrollment "approved")

module _ {E : Type 0} (eng : Enforcer E) (ctx_err : Error) where
  abbrev pub over_stream :
      Round → Result (Unit {0}) → E → Result (Unit {0}) × List AgentToServer × E
  over_stream r (err x) e = (err x, [], e)
  over_stream r (ok _) e = let done = receive eng r.arriving e in (err r.broken, done.0, done.1)

  abbrev pub enrolled : Round → Result String → E → Result (Unit {0}) × List AgentToServer × E
  enrolled r (err x) e = (err x, [], e)
  enrolled r (ok enrollment) e =
      if gated enrollment
      then ((if r.canceled then err ctx_err else ok tt), [], e)
      else over_stream r r.stream e

  unfoldable pub session : Round → E → Result (Unit {0}) × List AgentToServer × E
  unfolding receive
  session r e = enrolled r r.registered e

  -- Run, over the sessions until the context is done: all that was sent, and the enforcer.
  unfoldable pub run : List Round → E → List AgentToServer × E
  unfolding session
  run [] e = ([], e)
  run (r ∷ rounds) e = let s = session r e in let rest = run rounds s.2 in (s.1 ++ rest.0, rest.1)
