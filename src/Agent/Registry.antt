-- ===== src/Agent/Registry.antt =====
-- server/internal/agentctl/controller.go: how an agent registers, and which control stream is its
-- connection. A session token is the number in its ULID, a stream the number of its turn.
use yusui.Prelude.{
  ℕ, ◌+◌, Bool, not, ◌&&◌, Option, none, some, List, String, str_eq, if◌then◌else◌, get, put,
  delete, exists,
}
use yusui.Exec.{
  Result, ok, err, Exec, pure, raise, attempt, ◌>>=◌, or_else, unauthenticated, invalid_argument,
  not_found, aborted, exhausted, internal,
}
use yusui.Store.Rows.{YusuiAgent, Role, primary, secondary, Enrollment, online, offline}
use yusui.Store.Conn.{Conn, Db}
use yusui.Store.Catalog.{is_approved}
use yusui.Store.Inventory.{get_project_by_code}
use yusui.Store.Agents.{
  same_slot, get_agent_by_project_and_hostname, create_pending_agent, list_agents_by_project,
  set_agent_status,
}

-- `tokens` maps a session token to its agent, `conns` an agent to the stream of its connection;
-- `minted` counts the tokens and `streams` the streams so far.
pub record Registry : Type 0 where
  pub db : Conn
  pub tokens : List (ℕ × ℕ)
  pub conns : List (ℕ × ℕ)
  pub minted : ℕ
  pub streams : ℕ

pub record RegisterRequest : Type 0 where
  pub project_code : String
  pub hostname : String
  pub register_token : String

-- The response, without its fixed intervals.
pub record RegisterResponse : Type 0 where
  pub agent_id : ℕ
  pub session_token : ℕ
  pub enrollment : Enrollment
  pub netbird_setup_key : String

abbrev pub role_taken : Role → List YusuiAgent → Bool
role_taken r = exists (λ a. same_slot a.role r)

abbrev pub free_role : List YusuiAgent → Db Role
free_role rows =
    if not (role_taken primary rows)
    then pure primary
    else if not (role_taken secondary rows)
    then pure secondary
    else raise exhausted

unfoldable pub pick_role : ℕ → Db Role
pick_role project = or_else internal (list_agents_by_project project) >>= free_role

-- The row of the agent, or a new pending one; any error of the lookup is taken for a missing row.
abbrev pub or_pending : ℕ → String → Result YusuiAgent → Db YusuiAgent
or_pending project hostname (ok a) = pure a
or_pending project hostname (err x) =
    pick_role project >>= λ role. or_else aborted (create_pending_agent project role hostname)

unfoldable pub resolve_agent : RegisterRequest → Db YusuiAgent
unfolding pick_role
resolve_agent req = do
  proj ← or_else not_found (get_project_by_code req.project_code)
  seen ← attempt (get_agent_by_project_and_hostname proj.id req.hostname)
  or_pending proj.id req.hostname seen

abbrev pub text_of : Option String → String
text_of none = ""
text_of (some s) = s

-- The key goes to an approved agent alone.
abbrev pub setup_key_of : YusuiAgent → String
setup_key_of a = if is_approved a.enrollment then text_of a.netbird_setup_key else ""

module _ (reg_token : String) (ulid : ℕ → ℕ) where
  abbrev pub issued : Result YusuiAgent → Registry → Result RegisterResponse × Registry
  issued (err x) g = (err x, g)
  issued (ok a) g =
      let tok = ulid g.minted in
      (
        ok (record {
          agent_id = a.id;
          session_token = tok;
          enrollment = a.enrollment;
          netbird_setup_key = setup_key_of a;
        }),
        record g { tokens = put tok a.id g.tokens; minted = g.minted + 1 },
      )

  unfoldable pub register : RegisterRequest → Exec Registry RegisterResponse
  unfolding resolve_agent
  register req g =
      let r = resolve_agent req g.db in
      if not (str_eq reg_token "") && not (str_eq req.register_token reg_token)
      then (err unauthenticated, g)
      else if str_eq req.hostname ""
      then (err invalid_argument, g)
      else issued r.0 (record g { db = r.1 })

-- `Control` up to its loop: the stream becomes the connection of its agent.
abbrev pub connect_as : Option ℕ → Exec Registry (ℕ × ℕ)
connect_as none g = (err unauthenticated, g)
connect_as (some agent) g = (
  ok (agent, g.streams),
  record g {
    db = (set_agent_status agent online g.db).1;
    conns = put agent g.streams g.conns;
    streams = g.streams + 1;
  },
)

unfoldable pub connect : ℕ → Exec Registry (ℕ × ℕ)
connect token g = connect_as (get token g.tokens) g

-- What the loop does with a heartbeat.
unfoldable pub heartbeat : ℕ → Registry → Registry
heartbeat agent g = record g { db = (set_agent_status agent online g.db).1 }

-- The deferred end of a stream.
unfoldable pub disconnect : ℕ → Registry → Registry
disconnect agent g = record g {
  db = (set_agent_status agent offline g.db).1;
  conns = delete agent g.conns;
}
