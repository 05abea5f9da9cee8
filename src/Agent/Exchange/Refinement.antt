-- ===== src/Agent/Exchange/Refinement.antt =====
-- The gateway of Agent/Control stands for real commands: what it does at once is what the server, the
-- network and the agent do together.
use yusui.Prelude.{
  ℕ, ◌≡◌, refl, ap, ◌∙◌, true, Option, none, some, List, [], ◌∷◌, ◌==◌, String, get, put, get-put,
  get-delete, str_eq, ◌||◌, ==_refl, Bool-cases, inl, inr,
}
use yusui.Prelude.Int.{ℤ, to_uint32}
use yusui.Exec.{Result, ok, err, gateway_error, Exec}
use yusui.Store.Rows.{RuleId}
use yusui.Gateway.{ApplyInput, Target}
use yusui.Agent.Forward.{Forwarder, handle_apply, Entry, apply, known, opened, ttl_of}
use yusui.Agent.Forward
use yusui.Agent.Control.{
  Control, on_stream, apply_target, revoke_rule, sources, deadline_of, number,
}
use yusui.Agent.Control
use yusui.Agent.Messages.{ServerToAgent, AckCommand, AgentToServer, ack_msg, forwarding}
use yusui.Agent.Client.{on_message, on_apply, ack_apply, ack_revoke}
use yusui.Agent.Routing.{AgentConn, wait_ack, route, verdict, roundtrip}
use yusui.Agent.Routing.Waiters.{Flows, first_ack, roundtrip-Routed}
use yusui.Agent.Exchange.{apply_message, revoke_message, addr_of, done_of, exchange}

-- The answer of a call of its own arrives.
own-Flows : (a : AckCommand) (s : AgentConn) → Flows (ack_msg a ∷ []) (wait_ack a.command_id s)
unfolding wait_ack route
own-Flows a s = (
  record s { acks = put a.command_id (some a) (put a.command_id none s.acks) },
  rw (get-put a.command_id a.command_id none s.acks, ==_refl a.command_id) refl,
  tt,
)

-- A single ack, or none, is the answer.
own-verdict :
    (a : AckCommand) (s : AgentConn)
    → (roundtrip a.command_id true (ack_msg a ∷ []) s).0 ≡ verdict (some a)
unfolding first_ack
own-verdict a s =
    (roundtrip-Routed a.command_id (ack_msg a ∷ []) s (own-Flows a s)).result
    ∙ rw (==_refl a.command_id) refl

no-verdict : (id : ℕ) (s : AgentConn) → (roundtrip id true [] s).0 ≡ err gateway_error
unfolding first_ack
no-verdict id s = (roundtrip-Routed id [] s tt).result

-- An error of a command is the gateway's.
abbrev nacked : {A : Type 0} → Result A → Result A
nacked (ok a) = ok a
nacked (err x) = err gateway_error

apply-answer :
    (id : ℕ) (r : Result String) (s : AgentConn)
    → addr_of (roundtrip id true (ack_apply id r ∷ []) s).0 ≡ nacked r
apply-answer id (ok fwd) s = ap addr_of (own-verdict _ s)
apply-answer id (err x) s = ap addr_of (own-verdict _ s)

revoke-answer :
    (id : ℕ) (r : Result (Unit {0})) (s : AgentConn)
    → done_of (roundtrip id true (ack_revoke id r ∷ []) s).0 ≡ nacked r
revoke-answer id (ok tt) s = ap done_of (own-verdict _ s)
revoke-answer id (err x) s = ap done_of (own-verdict _ s)

-- The call and the agent's enforcer have come to what the gateway says of them, and the call has left
-- no channel behind.
pub record Refines {A : Type 0} (told : Result AckCommand → Result A) (agent id : ℕ)
    (real : Result AckCommand × Forwarder × AgentConn) (said : Result A × Control) : Type 0 where
  pub result : told real.0 ≡ said.0
  pub enforcer : get agent said.1.agents ≡ some real.1
  pub cleared : get id real.2.acks ≡ none

module _ (listen : ℕ → Result String) where
  opened-nacked :
      (rule : ℕ) (srcs : List String) (ip : String) (port : ℕ) (ttl : ℤ) (r : Result String)
      (f : Forwarder)
      → nacked (opened listen rule srcs ip port ttl r f).0
        ≡ (opened listen rule srcs ip port ttl r f).0
  opened-nacked rule srcs ip port ttl (ok a) f = refl
  opened-nacked rule srcs ip port ttl (err x) f = refl

  known-nacked :
      (rule : ℕ) (srcs : List String) (ip : String) (port : ℕ) (ttl : ℤ) (o : Option Entry)
      (f : Forwarder)
      → nacked (known listen rule srcs ip port ttl o f).0
        ≡ (known listen rule srcs ip port ttl o f).0
  known-nacked rule srcs ip port ttl (some e) f = refl
  known-nacked rule srcs ip port ttl none f = opened-nacked rule srcs ip port ttl _ _

  apply-nacked :
      (rule : ℕ) (srcs : List String) (ip : String) (port : ℕ) (ttl : ℤ) (f : Forwarder)
      → nacked (apply listen rule srcs ip port ttl f).0 ≡ (apply listen rule srcs ip port ttl f).0
  unfolding apply
  apply-nacked rule srcs ip port ttl f = elim (Bool-cases (str_eq ip "" || port == 0)) [
    | inl bad ↦ rw bad refl
    | inr fine ↦ rw fine (known-nacked rule srcs ip port ttl (get rule f.rules) f)
  ]

  module _ {A : Type 0} (told : Result AckCommand → Result A) (agent id : ℕ) (m : ServerToAgent)
      (command : Exec Forwarder A) (f : Forwarder) (s : AgentConn) (reply : AgentToServer)
      (sends : on_message (forwarding listen) f.now m f ≡ (reply ∷ [], (command f).1))
      (tells : told (roundtrip id true (reply ∷ []) s).0 ≡ (command f).0)
      (fails : told (err gateway_error) ≡ err gateway_error) where
    exchange-Refines :
        (c : Control)
        → get agent c.agents ≡ some f
        → Refines told agent id
            (exchange (forwarding listen) f.now id m (c.undelivered c.sent) (c.unacked c.sent) f s)
            (on_stream agent command (some f) c)
    unfolding exchange
    exchange-Refines c up = elim (Bool-cases (c.undelivered c.sent)) [
      | inl lost ↦
          rw lost (record {
            result = ap told (no-verdict id s) ∙ fails;
            enforcer = up;
            cleared = gone [];
          })
      | inr sent ↦ elim (Bool-cases (c.unacked c.sent)) [
        | inl lost ↦
            rw (sent, lost, sends)
              (record {
                result = ap told (no-verdict id s) ∙ fails;
                enforcer = there;
                cleared = gone [];
              })
        | inr back ↦
            rw (sent, back, sends)
              (record { result = tells; enforcer = there; cleared = gone (reply ∷ []) })
      ]
    ]
      where
        there : get agent (put agent (command f).1 c.agents) ≡ some (command f).1
        there = get-put agent agent (command f).1 c.agents ∙ rw (==_refl agent) refl

        gone : (ms : List AgentToServer) → get id (roundtrip id true ms s).1.acks ≡ none
        gone ms = get-delete id id _ ∙ rw (==_refl id) refl

  apply-sends :
      (id : ℕ) (i : ApplyInput) (t : Target) (srcs : List String) (f : Forwarder)
      → i.src_peer_ips ≡ srcs
      → let r =
          handle_apply listen
            (number i.rule_id)
            (sources srcs)
            t.dst_ip
            (to_uint32 t.dst_port)
            (deadline_of i.expires_at)
            f in
        on_message (forwarding listen) f.now (apply_message id i t) f ≡ (ack_apply id r.0 ∷ [], r.1)
  unfolding on_message on_apply apply_message handle_apply
  apply-sends id i t [] f h = rw h refl
  apply-sends id i t (src ∷ srcs) f h = rw h refl

  handle_apply-nacked :
      (rule : ℕ) (srcs : List String) (ip : String) (port : ℕ) (at : Option ℕ) (f : Forwarder)
      → nacked (handle_apply listen rule srcs ip port at f).0
        ≡ (handle_apply listen rule srcs ip port at f).0
  unfolding handle_apply
  handle_apply-nacked rule [] ip port at f = refl
  handle_apply-nacked rule (src ∷ srcs) ip port at f =
      apply-nacked rule (src ∷ srcs) ip port (ttl_of at f.now) f

  -- What ApplyRule does for one target, on an agent that is connected: the command queued, handled by
  -- the agent's client and answered, whichever of the two messages is lost, comes to what the gateway
  -- does in one step, in its result and in the agent's forwarder, and the call leaves no channel.
  pub apply_target-Refines :
      (id : ℕ) (i : ApplyInput) (t : Target) (f : Forwarder) (s : AgentConn) (c : Control)
      → get i.agent_id c.agents ≡ some f
      → Refines addr_of i.agent_id id
          (exchange
            (forwarding listen)
            f.now
            id
            (apply_message id i t)
            (c.undelivered c.sent)
            (c.unacked c.sent)
            f
            s)
          (apply_target listen i t c)
  unfolding apply_target Control.roundtrip
  apply_target-Refines id i t f s c up = rw up (
      exchange-Refines addr_of i.agent_id id (apply_message id i t) command f s _
        (apply-sends id i t i.src_peer_ips f refl)
        (apply-answer id _ s ∙ handle_apply-nacked _ _ _ _ _ f) refl c up)
    where
      command : Exec Forwarder String
      command =
          handle_apply listen (number i.rule_id) (sources i.src_peer_ips) t.dst_ip
            (to_uint32 t.dst_port) (deadline_of i.expires_at)

  -- The same of RevokeRule.
  pub revoke_rule-Refines :
      (agent id : ℕ) (rule : RuleId) (f : Forwarder) (s : AgentConn) (c : Control)
      → get agent c.agents ≡ some f
      → Refines done_of agent id
          (exchange
            (forwarding listen)
            f.now
            id
            (revoke_message id rule)
            (c.undelivered c.sent)
            (c.unacked c.sent)
            f
            s)
          (revoke_rule agent rule c)
  unfolding revoke_rule Control.roundtrip on_message revoke_message Forward.revoke
  revoke_rule-Refines agent id rule f s c up = rw up (
      exchange-Refines done_of agent id (revoke_message id rule) (Forward.revoke (number rule)) f s
        _ refl (revoke-answer id (ok tt) s) refl c up)
