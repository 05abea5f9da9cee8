-- ===== src/Store/Agents.antt =====
-- server/internal/store/agents.sql.go, but for the lookup of the workflow. A row stands at the end of
-- its table, as its id is the largest, so that ORDER BY id is the order of the list.
use yusui.Prelude.{
  ℕ, ◌+◌, Bool, true, false, ◌&&◌, ◌||◌, Option, none, some, List, [], ◌∷◌, ◌++◌, String, str_eq,
  if◌then◌else◌, ◌==◌, first, exists, select, not,
}
use yusui.Exec.{ok, err, constraint, duplicate}
use yusui.Store.Rows.{
  YusuiAgent, Role, primary, secondary, Liveness, unknown, Enrollment, enroll_approved,
  enroll_pending, enroll_rejected,
}
use yusui.Store.Tickets.{has_project}
use yusui.Store.Conn.{Tables, Conn, Db, query, read, one, write}

abbrev pub find_agent : ℕ → List YusuiAgent → Option YusuiAgent
find_agent id = first (λ a. a.id == id)

-- `UPDATE … WHERE id = $1`.
unfoldable pub update_agent : ℕ → (YusuiAgent → YusuiAgent) → List YusuiAgent → List YusuiAgent
update_agent id f [] = []
update_agent id f (a ∷ rows) = (if a.id == id then f a else a) ∷ update_agent id f rows

abbrev pub set_agents : Tables → List YusuiAgent → Tables
set_agents d rows = record d { agents = rows }

abbrev pub same_slot : Role → Role → Bool
same_slot primary primary = true
same_slot secondary secondary = true
same_slot _ _ = false

-- UPDATE … RETURNING the row.
unfoldable pub edit_agent : ℕ → (YusuiAgent → YusuiAgent) → Db YusuiAgent
edit_agent id f = query λ c.
    let rows = update_agent id f c.agents in
    (one (find_agent id rows), record c { tables = set_agents c.tables rows })

abbrev pub approved_agent : Option String → YusuiAgent → YusuiAgent
approved_agent key a = record a { enrollment = enroll_approved; netbird_setup_key = key }

abbrev pub rejected_agent : YusuiAgent → YusuiAgent
rejected_agent a = record a { enrollment = enroll_rejected }

unfoldable pub approve_agent : ℕ → Option String → Db YusuiAgent
unfolding edit_agent
approve_agent id key = edit_agent id (approved_agent key)

unfoldable pub reject_agent : ℕ → Db YusuiAgent
unfolding edit_agent
reject_agent id = edit_agent id rejected_agent

abbrev pub new_agent : ℕ → ℕ → ℕ → Role → String → Enrollment → YusuiAgent
new_agent id now project role hostname enrollment = record {
  id = id;
  project_id = project;
  role = role;
  hostname = hostname;
  netbird_peer_id = none;
  netbird_route_id = none;
  agent_version = none;
  cert_fingerprint = none;
  status = unknown;
  last_seen_at = none;
  registered_at = now;
  enrollment = enrollment;
  netbird_setup_key = none;
}

abbrev pub is_taken_slot : ℕ → Role → Conn → Bool
is_taken_slot project role c =
    exists (λ x. x.id == c.seq) c.agents
    || exists (λ x. x.project_id == project && same_slot x.role role) c.agents

-- UNIQUE (project_id, role), and the keys.
unfoldable pub insert_agent : ℕ → Role → String → Enrollment → Db YusuiAgent
insert_agent project role hostname enrollment = query λ c.
    let a = new_agent c.seq c.now project role hostname enrollment in
    let d = record c { seq = c.seq + 1 } in
    if is_taken_slot project role c
    then (err duplicate, d)
    else if not (has_project project c.projects)
    then (err constraint, d)
    else (ok a, record d { tables = set_agents c.tables (c.agents ++ a ∷ []) })

unfoldable pub create_agent : ℕ → Role → String → Db YusuiAgent
unfolding insert_agent
create_agent project role hostname = insert_agent project role hostname enroll_approved

unfoldable pub create_pending_agent : ℕ → Role → String → Db YusuiAgent
unfolding insert_agent
create_pending_agent project role hostname = insert_agent project role hostname enroll_pending

unfoldable pub get_agent_by_id : ℕ → Db YusuiAgent
get_agent_by_id id = read λ c. one (find_agent id c.agents)

abbrev pub is_host : ℕ → String → YusuiAgent → Bool
is_host project hostname a = a.project_id == project && str_eq a.hostname hostname

-- The rows of a project with one host name may be two: the first that the database finds.
unfoldable pub get_agent_by_project_and_hostname : ℕ → String → Db YusuiAgent
get_agent_by_project_and_hostname project hostname =
    read λ c. one (first (is_host project hostname) c.agents)

unfoldable pub list_agents : Db (List YusuiAgent)
list_agents = read λ c. ok c.agents

unfoldable pub list_agents_by_project : ℕ → Db (List YusuiAgent)
list_agents_by_project project = read λ c. ok (select (λ a. a.project_id == project) c.agents)

unfoldable pub set_agent_status : ℕ → Liveness → Db (Unit {0})
set_agent_status id status = write λ c.
    set_agents c.tables
      (update_agent id (λ a. record a { status = status; last_seen_at = some c.now }) c.agents)
