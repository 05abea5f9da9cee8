-- ===== src/Examples/Registry.antt =====
-- The theorems on registration, at concrete inputs.
use yusui.Prelude.{ℕ, ◌+◌, ◌≡◌, refl, true, ◌||◌, none, some, [], ◌∷◌, str_eq, get}
use yusui.Exec.{ok, ◌>>=◌, or_else}
use yusui.Store.Rows.{Enrollment}
use yusui.Store.Conn.{query}
use yusui.Store.Inventory.{get_project_by_code}
use yusui.Store.Agents.{
  get_agent_by_project_and_hostname, list_agents_by_project, create_pending_agent, insert_agent,
}
use yusui.Agent.Registry.{
  Registry, RegisterRequest, RegisterResponse, register, resolve_agent, pick_role, connect,
  disconnect,
}
use yusui.Agent.Enlisting.{Steady, register-Steady}
use yusui.Agent.Registering.{Registered, register-Registered, once, twice, disconnect-connect}
use yusui.Examples.World.{tables, conn_of}

abbrev registry : Registry
registry = record {
  db = conn_of tables;
  tokens = (31, 7) ∷ [];
  conns = [];
  minted = 0;
  streams = 0;
}

-- A second host of the project.
abbrev newcomer : RegisterRequest
newcomer = record { project_code = "acme"; hostname = "edge2"; register_token = "t" }

abbrev ulid : ℕ → ℕ
ulid n = n + 300

abbrev response : RegisterResponse
response = record {
  agent_id = 6;
  session_token = 300;
  enrollment = Enrollment.enroll_pending;
  netbird_setup_key = "";
}

register_runs : (register "t" ulid newcomer registry).0 ≡ ok response
unfolding register resolve_agent or_else get_project_by_code query get_agent_by_project_and_hostname
    pick_role list_agents_by_project create_pending_agent insert_agent ◌>>=◌
register_runs = refl

register-Steady_example : Steady registry.db (register "t" ulid newcomer registry).1.db
register-Steady_example = register-Steady "t" ulid newcomer registry

register-Registered_example :
    Registered newcomer registry response (register "t" ulid newcomer registry).1
    × ((str_eq "t" "" || str_eq "t" "t") ≡ true)
register-Registered_example = register-Registered "t" ulid newcomer registry response register_runs

known : get 31 registry.tokens ≡ some 7
unfolding get
known = refl

disconnect-connect_example :
    ((connect 31 registry).0 ≡ ok (7, registry.streams))
    × ((connect 31 (once 31 7 registry)).0 ≡ ok (7, (once 31 7 registry).streams))
    × (get 7 (twice 31 7 registry).conns ≡ some (once 31 7 registry).streams)
    × (get 7 (disconnect 7 (twice 31 7 registry)).conns ≡ none)
disconnect-connect_example = disconnect-connect 31 7 registry known
