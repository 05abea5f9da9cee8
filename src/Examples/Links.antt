-- ===== src/Examples/Links.antt =====
-- The theorems on the command messages between server and agent, at concrete inputs.
use yusui.Prelude.{ℕ, ◌≡◌, refl, true, false, none, some, List, [], ◌∷◌, get, put, delete, String}
use yusui.Exec.{ok, gateway_error}
use yusui.Agent.Control.{apply_target}
use yusui.Agent.Messages.{
  AckCommand, ack_ok, AgentToServer, ack_msg, apply_rule, forwarding, ServerToAgent, proto_tcp,
}
use yusui.Agent.Client.{Round}
use yusui.Agent.Routing.{AgentConn, route, wait_ack, roundtrip}
use yusui.Agent.Routing.Waiters.{Flows, Routed, roundtrip-Routed}
use yusui.Agent.Exchange.{apply_message, exchange, addr_of}
use yusui.Agent.Exchange.Refinement.{Refines, apply_target-Refines}
use yusui.Examples.World.{control, forwarder, listen}
use yusui.Examples.Agent.{two_targets, web_target}

abbrev quiet : AgentConn
quiet = record { acks = []; recos = [] }

seven : get 7 control.agents ≡ some forwarder
unfolding get
seven = refl

apply_target-Refines_example :
    Refines addr_of 7 77
      (exchange
        (forwarding listen)
        1000
        77
        (apply_message 77 two_targets web_target)
        false
        false
        forwarder
        quiet)
      (apply_target listen two_targets web_target control)
apply_target-Refines_example =
    apply_target-Refines listen 77 two_targets web_target forwarder quiet control seven

abbrev ack_of : ℕ → AckCommand
ack_of id = record { command_id = id; result = ack_ok; forward_addr = "100.64.0.7:4000" }

-- Another call waits, an ack comes for nobody, and one for each of the two.
abbrev busy : AgentConn
busy = record { acks = (3, none) ∷ []; recos = [] }

abbrev answers : List AgentToServer
answers = ack_msg (ack_of 9) ∷ ack_msg (ack_of 3) ∷ ack_msg (ack_of 1) ∷ []

answers-Flows : Flows answers (wait_ack 1 busy)
unfolding route wait_ack get put delete
answers-Flows = (
  record { acks = (1, none) ∷ (3, none) ∷ []; recos = [] },
  refl,
  (
    record { acks = (3, some (ack_of 3)) ∷ (1, none) ∷ []; recos = [] },
    refl,
    (record { acks = (1, some (ack_of 1)) ∷ (3, some (ack_of 3)) ∷ []; recos = [] }, refl, tt),
  ),
)

roundtrip-Routed_example : Routed 1 answers busy (roundtrip 1 true answers busy)
roundtrip-Routed_example = roundtrip-Routed 1 answers busy answers-Flows

abbrev command : ServerToAgent
command = apply_rule (record {
  command_id = 4;
  rule_id = 5;
  src_peer_ips = "100.64.0.1" ∷ [];
  dst_ip = "10.0.0.3";
  dst_port = 22;
  proto = proto_tcp;
  expires_at = none;
})

-- Commands lie in wait; the agent is pending twice and approved then.
abbrev answering : String → Round
answering enrollment = record {
  registered = ok enrollment;
  canceled = false;
  stream = ok tt;
  arriving = (1000, command) ∷ [];
  broken = gateway_error;
}
