-- ===== src/Store/Catalog.antt =====
-- server/internal/store: projects.sql.go, assets.sql.go, policy_bindings.sql.go and audit.sql.go,
-- as far as the ticket workflow calls them, and the lookups of agents.sql.go.
use yusui.Prelude.{
  ℕ, ◌+◌, Bool, true, false, ◌&&◌, Option, none, some, List, [], ◌∷◌, String, if◌then◌else◌, ◌==◌,
  first, select, mem,
}
use yusui.Exec.{ok}
use yusui.Store.Rows.{
  YusuiAsset, YusuiProject, YusuiAgent, YusuiPolicyBinding, YusuiAuditLog, Role, primary,
  Enrollment, enroll_approved, RuleId, Actor, Action, Target, Payload,
}
use yusui.Store.Conn.{Tables, Db, read, one, write}

unfoldable pub get_project_by_id : ℕ → Db YusuiProject
get_project_by_id id = read λ c. one (first (λ p. p.id == id) c.projects)

unfoldable pub get_asset_by_id : ℕ → Db YusuiAsset
get_asset_by_id id = read λ c. one (first (λ a. a.id == id) c.assets)

-- WHERE id = ANY(ids) ORDER BY id: each matching row once, whatever the ids repeat or miss.
unfoldable pub list_assets_by_ids : List ℕ → Db (List YusuiAsset)
list_assets_by_ids ids = read λ c. ok (select (λ a. mem a.id ids) c.assets)

abbrev pub is_primary : Role → Bool
is_primary primary = true
is_primary _ = false

abbrev pub is_approved : Enrollment → Bool
is_approved enroll_approved = true
is_approved _ = false

unfoldable pub is_target : ℕ → YusuiAgent → Bool
is_target project a = a.project_id == project && is_primary a.role && is_approved a.enrollment

-- UNIQUE (project_id, role) leaves at most one row.
unfoldable pub get_primary_agent_for_project : ℕ → Db YusuiAgent
unfolding is_target
get_primary_agent_for_project project = read λ c. one (first (is_target project) c.agents)

unfoldable pub find_binding : ℕ → List YusuiPolicyBinding → Option YusuiPolicyBinding
find_binding id = first (λ b. b.ticket_id == id)

unfoldable pub get_binding : ℕ → Db YusuiPolicyBinding
get_binding id = read λ c. one (find_binding id c.policy_bindings)

pub record UpsertBindingParams : Type 0 where
  pub ticket_id : ℕ
  pub agent_id : ℕ
  pub agent_rule_id : RuleId
  pub src_peer_ips : List String

abbrev pub new_binding : ℕ → UpsertBindingParams → YusuiPolicyBinding
new_binding now p = record {
  ticket_id = p.ticket_id;
  agent_id = p.agent_id;
  agent_rule_id = p.agent_rule_id;
  src_peer_ips = p.src_peer_ips;
  agent_applied_at = none;
  apply_attempts = 0;
  revoke_attempts = 0;
  last_error = none;
  updated_at = now;
}

-- INSERT … ON CONFLICT (ticket_id) DO UPDATE.
unfoldable pub upsert_row :
    ℕ → UpsertBindingParams → List YusuiPolicyBinding → List YusuiPolicyBinding
upsert_row now p [] = new_binding now p ∷ []
upsert_row now p (b ∷ bs) =
    if b.ticket_id == p.ticket_id
    then record b {
      agent_id = p.agent_id;
      agent_rule_id = p.agent_rule_id;
      src_peer_ips = p.src_peer_ips;
      updated_at = now;
    }
      ∷ bs
    else b ∷ upsert_row now p bs

abbrev pub set_bindings : Tables → List YusuiPolicyBinding → Tables
set_bindings d bs = record d { policy_bindings = bs }

unfoldable pub upsert_binding : UpsertBindingParams → Db (Unit {0})
upsert_binding p = write λ c. set_bindings c.tables (upsert_row c.now p c.policy_bindings)

unfoldable pub mark_applied : ℕ → ℕ → List YusuiPolicyBinding → List YusuiPolicyBinding
mark_applied now id [] = []
mark_applied now id (b ∷ bs) =
    (if b.ticket_id == id
      then record b {
        agent_applied_at = some now;
        apply_attempts = b.apply_attempts + 1;
        updated_at = now;
      }
      else b)
    ∷ mark_applied now id bs

unfoldable pub set_binding_applied : ℕ → Db (Unit {0})
set_binding_applied id = write λ c. set_bindings c.tables (mark_applied c.now id c.policy_bindings)

abbrev pub audit_row : ℕ → Actor → Action → Target → Payload → YusuiAuditLog
audit_row now actor action target payload = record {
  ts = now;
  actor = actor;
  action = action;
  target = target;
  payload = payload;
}

-- The newest row stands first. The role of the server may only insert here.
unfoldable pub insert_audit : Actor → Action → Target → Payload → Db (Unit {0})
insert_audit actor action target payload = write λ c. record (c.tables) {
  audit_logs = audit_row c.now actor action target payload ∷ c.audit_logs;
}
