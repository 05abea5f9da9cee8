-- ===== src/Gateway.antt =====
-- server/internal/agentgw/gateway.go: what the policy engine asks of the project agents. `G` is the
-- state behind the interface; a call returns its result and the state after it.
pub mod Memory
use yusui.Prelude.{ℕ, String, List}
use yusui.Prelude.Int.{ℤ}
use yusui.Exec.{Exec}
use yusui.Store.Rows.{RuleId}

pub record Target : Type 0 where
  pub dst_ip : String
  pub dst_port : ℤ
  pub proto : String

pub record ApplyInput : Type 0 where
  pub rule_id : RuleId
  pub agent_id : ℕ
  pub src_peer_ips : List String
  pub targets : List Target
  pub expires_at : ℕ

pub record Gateway (G : Type 0) : Type 0 where
  pub apply_rule : ApplyInput → Exec G String
  pub revoke_rule : ℕ → RuleId → Exec G (Unit {0})
  pub reconcile : ℕ → Exec G (List RuleId)
