-- ===== src/Agent/Control.antt =====
-- server/internal/agentctl/controller.go: the gateway over the control streams. A command goes to
-- the agent's forwarder and its ack comes back; either may be lost, and the caller then times out.
use yusui.Prelude.{
  ℕ, ◌+◌, Bool, Option, none, some, List, [], ◌∷◌, String, str_eq, if◌then◌else◌, get, put, ◌==◌,
  map,
}
use yusui.Prelude.Int.{to_uint32}
use yusui.Exec.{Result, ok, err, Exec, pure, gateway_error, ◌>>=◌, ◌>>◌}
use yusui.Store.Rows.{RuleId, tk}
use yusui.Gateway.{Gateway, ApplyInput, Target}
use yusui.Agent.Forward.{Forwarder, handle_apply, revoke, keys}

-- `agents` holds the forwarder behind each stream that is up; `sent` counts the commands.
pub record Control : Type 0 where
  pub agents : List (ℕ × Forwarder)
  pub sent : ℕ
  pub undelivered : ℕ → Bool
  pub unacked : ℕ → Bool

-- The handler of the command runs on the agent.
abbrev pub delivered : {A : Type 0} → ℕ → Forwarder → Exec Forwarder A → Exec Control A
delivered agent f command c =
    let done = record c { sent = c.sent + 1; agents = put agent (command f).1 c.agents } in
    if c.unacked c.sent then (err gateway_error, done) else ((command f).0, done)

abbrev pub on_stream : {A : Type 0} → ℕ → Exec Forwarder A → Option Forwarder → Exec Control A
on_stream agent command none c = (err gateway_error, c)
on_stream agent command (some f) c =
    if c.undelivered c.sent
    then (err gateway_error, record c { sent = c.sent + 1 })
    else delivered agent f command c

unfoldable pub roundtrip : {A : Type 0} → ℕ → Exec Forwarder A → Exec Control A
roundtrip agent command c = on_stream agent command (get agent c.agents) c

-- An empty list of sources goes out as one empty source.
abbrev pub sources : List String → List String
sources [] = "" ∷ []
sources (s ∷ ss) = s ∷ ss

-- The zero time is no time.
abbrev pub deadline_of : ℕ → Option ℕ
deadline_of at = if at == 0 then none else some at

abbrev pub first_addr : String → String → String
first_addr seen addr = if str_eq seen "" then addr else seen

abbrev pub number : RuleId → ℕ
number (tk n) = n

abbrev pub found : Option Forwarder → Result (Unit {0})
found none = err gateway_error
found (some f) = ok tt

abbrev pub connected : ℕ → Exec Control (Unit {0})
connected agent c = (found (get agent c.agents), c)

unfoldable pub revoke_rule : ℕ → RuleId → Exec Control (Unit {0})
unfolding roundtrip
revoke_rule agent rule = roundtrip agent (revoke (number rule))

unfoldable pub reconcile : ℕ → Exec Control (List RuleId)
unfolding roundtrip
reconcile agent = roundtrip agent λ f. (ok (map tk (keys f.rules)), f)

module _ (listen : ℕ → Result String) where
  unfoldable pub apply_target : ApplyInput → Target → Exec Control String
  unfolding roundtrip
  apply_target i t = roundtrip i.agent_id (
      handle_apply listen (number i.rule_id) (sources i.src_peer_ips) t.dst_ip
        (to_uint32 t.dst_port) (deadline_of i.expires_at))

  -- One command for each target; the first address is the result.
  unfoldable pub apply_targets : ApplyInput → String → List Target → Exec Control String
  unfolding apply_target
  apply_targets i seen [] = pure seen
  apply_targets i seen (t ∷ ts) = do
    addr ← apply_target i t
    apply_targets i (first_addr seen addr) ts

  unfoldable pub apply_rule : ApplyInput → Exec Control String
  unfolding apply_targets
  apply_rule i = do connected i.agent_id; apply_targets i "" i.targets

  -- What the policy engine is given in production.
  abbrev pub controller : Gateway Control
  controller = record { apply_rule = apply_rule; revoke_rule = revoke_rule; reconcile = reconcile }
