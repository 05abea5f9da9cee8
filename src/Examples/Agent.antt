-- ===== src/Examples/Agent.antt =====
-- The theorems on the agent, on its control stream and on the store, at concrete inputs.
use yusui.Prelude.{◌≡◌, refl, none, some, [], ◌∷◌, true, get, put, delete}
use yusui.Prelude.Int.{pos}
use yusui.Exec.{ok, err, unavailable, ◌>>=◌}
use yusui.Store.Rows.{tk, Status}
use yusui.Store.Conn.{Conn, in_tx, bracketed, query}
use yusui.Store.Tickets.{close_ticket}
use yusui.Gateway.{ApplyInput, Target}
use yusui.Agent.Forward.{
  Forwarder, apply, handle_apply, elapse, in_time, new_entry, non_empty, revoke,
}
use yusui.Agent.Control.{roundtrip, apply_target, apply_targets, apply_rule, revoke_rule}
use yusui.Agent.Delivery.{Up, LeadsTo, apply_rule-LeadsTo}
use yusui.Examples.World.{control, forwarder, entry, listen, ticket, tables, conn_of}

abbrev pub web_target : Target
web_target = record { dst_ip = "10.0.0.3"; dst_port = pos 22; proto = "tcp" }

abbrev db_target : Target
db_target = record { dst_ip = "10.0.0.4"; dst_port = pos 5432; proto = "tcp" }

abbrev pub two_targets : ApplyInput
two_targets = record {
  rule_id = tk 5;
  agent_id = 7;
  src_peer_ips = "100.64.0.1" ∷ [];
  targets = web_target ∷ db_target ∷ [];
  expires_at = 9000;
}

apply_rule_runs : (apply_rule listen two_targets control).0 ≡ ok "100.64.0.7:4000"
unfolding apply_rule apply_targets apply_target roundtrip handle_apply apply new_entry non_empty get
    put delete ◌>>=◌
apply_rule_runs = refl

seven : get 7 control.agents ≡ some forwarder
unfolding get
seven = refl

no_rule : get 5 forwarder.rules ≡ none
unfolding get
no_rule = refl

apply_rule-LeadsTo_example :
    Up 7 (LeadsTo listen two_targets web_target) (apply_rule listen two_targets control).1
apply_rule-LeadsTo_example =
    apply_rule-LeadsTo listen two_targets web_target (db_target ∷ []) forwarder control
      "100.64.0.7:4000" refl seven no_rule apply_rule_runs

revoke_rule_runs : (revoke_rule 7 (tk 5) control).0 ≡ ok tt
unfolding revoke_rule roundtrip revoke get
revoke_rule_runs = refl

apply_runs :
    (apply listen 5 ("100.64.0.1" ∷ []) "10.0.0.3" 22 (pos 60) forwarder).0 ≡ ok "100.64.0.7:4000"
unfolding apply get
apply_runs = refl

abbrev enforcing : Forwarder
enforcing = record { rules = (5, entry) ∷ []; listens = 1; now = 1000 }

still_there : get 5 (elapse 500 enforcing).rules ≡ some entry
unfolding elapse in_time get
still_there = refl

-- The database is down.
abbrev broken : Conn
broken = record (conn_of tables) { fails = λ _. true }

in_tx_fails : (in_tx (close_ticket 5 Status.closed) broken).0 ≡ err unavailable
unfolding in_tx bracketed query close_ticket ◌>>=◌
in_tx_fails = refl

abbrev up : Conn
up = conn_of (record tables { tickets = ticket ∷ [] })
