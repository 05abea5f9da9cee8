-- ===== src/Agent/Messages.antt =====
-- What goes over a control stream, as agent/internal/control/client.go and
-- server/internal/agentctl/controller.go build and read it, and the interface of
-- agent/internal/enforcer/enforcer.go. Command and rule ids are the numbers in them.
use yusui.Prelude.{ℕ, Option, List, String, str_eq, if◌then◌else◌}
use yusui.Prelude.Int.{ℤ}
use yusui.Agent.Forward.{Forwarder, keys}
use yusui.Agent.Forward
use yusui.Exec.{Result, Exec}

pub data Protocol : Type 0 where
  proto_tcp proto_udp proto_any : Protocol

unfoldable pub proto_of : String → Protocol
proto_of s = if str_eq s "udp" then proto_udp else if str_eq s "any" then proto_any else proto_tcp

-- A message without an expiry has the zero time's `none`.
pub record ApplyRule : Type 0 where
  pub command_id : ℕ
  pub rule_id : ℕ
  pub src_peer_ips : List String
  pub dst_ip : String
  pub dst_port : ℕ
  pub proto : Protocol
  pub expires_at : Option ℕ

pub data ServerToAgent : Type 0 where
  apply_rule : ApplyRule → ServerToAgent
  revoke_rule : ℕ → ℕ → ServerToAgent
  reconcile : ℕ → ServerToAgent
  drain : ServerToAgent

-- `ack_other` is every other code, of which the agent sends none.
pub data AckResult : Type 0 where
  ack_ok ack_failed ack_skipped ack_other : AckResult

pub record AckCommand : Type 0 where
  pub command_id : ℕ
  pub result : AckResult
  pub forward_addr : String

pub data AgentToServer : Type 0 where
  ack_msg : AckCommand → AgentToServer
  reconcile_resp : ℕ → List ℕ → AgentToServer
  heartbeat : ℕ → String → AgentToServer
  rule_event : ℕ → String → AgentToServer

pub record Enforcer (E : Type 0) : Type 0 where
  pub apply : ℕ → List String → String → ℕ → ℤ → Exec E String
  pub revoke : ℕ → Exec E (Unit {0})
  pub active_rule_ids : E → List ℕ

-- The forwarder behind the interface.
abbrev pub forwarding : (ℕ → Result String) → Enforcer Forwarder
forwarding listen = record {
  apply = Forward.apply listen;
  revoke = Forward.revoke;
  active_rule_ids = λ f. keys f.rules;
}
