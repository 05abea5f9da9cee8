-- ===== src/Agent/Exchange.antt =====
-- A command on its way: the call of server/internal/agentctl/controller.go, the handler of
-- agent/internal/control/client.go, and the answer back. The network may lose either message.
pub mod Refinement
use yusui.Prelude.{ℕ, Bool, true, List, [], String, if◌then◌else◌}
use yusui.Prelude.Int.{to_uint32}
use yusui.Exec.{Result, ok, err, gateway_error}
use yusui.Store.Rows.{RuleId}
use yusui.Gateway.{ApplyInput, Target}
use yusui.Agent.Control.{sources, deadline_of, number}
use yusui.Agent.Messages.{ApplyRule, ServerToAgent, AckCommand, AgentToServer, Enforcer, proto_of}
use yusui.Agent.Messages
use yusui.Agent.Client.{on_message}
use yusui.Agent.Routing.{AgentConn, roundtrip}

-- The messages of ApplyRule and of RevokeRule.
unfoldable pub apply_message : ℕ → ApplyInput → Target → ServerToAgent
unfolding proto_of
apply_message id i t = Messages.apply_rule (record {
  command_id = id;
  rule_id = number i.rule_id;
  src_peer_ips = sources i.src_peer_ips;
  dst_ip = t.dst_ip;
  dst_port = to_uint32 t.dst_port;
  proto = proto_of t.proto;
  expires_at = deadline_of i.expires_at;
})

unfoldable pub revoke_message : ℕ → RuleId → ServerToAgent
revoke_message id rule = Messages.revoke_rule id (number rule)

-- What the caller is told of an accepted command.
abbrev pub addr_of : Result AckCommand → Result String
addr_of (ok a) = ok a.forward_addr
addr_of (err x) = err x

abbrev pub done_of : Result AckCommand → Result (Unit {0})
done_of (ok a) = ok tt
done_of (err x) = err x

module _ {E : Type 0} (eng : Enforcer E) where
  -- What comes back to the server, and the agent's enforcer.
  abbrev pub transmit : ℕ → ServerToAgent → Bool → Bool → E → List AgentToServer × E
  transmit now m undelivered unacked e =
      let r = on_message eng now m e in
      if undelivered then ([], e) else if unacked then ([], r.1) else r

  unfoldable pub exchange :
      ℕ → ℕ → ServerToAgent → Bool → Bool → E → AgentConn → Result AckCommand × E × AgentConn
  unfolding on_message roundtrip
  exchange now id m undelivered unacked e s =
      let r = transmit now m undelivered unacked e in
      let d = roundtrip id true r.0 s in (d.0, r.1, d.1)
