-- ===== src/Examples/World.antt =====
-- A small deployment: one project with an agent and an asset, a requester and an approver.
use yusui.Prelude.{ℕ, ◌+◌, false, true, none, some, [], ◌∷◌, String}
use yusui.Prelude.Int.{pos}
use yusui.Exec.{Result, ok}
use yusui.Store.Rows.{
  YusuiUser, UserRole, YusuiProject, YusuiAgent, Role, Liveness, Enrollment, YusuiAsset,
  YusuiTicket, Status, Actor, asset_ids, YusuiPolicyBinding, tk,
}
use yusui.Store.Conn.{Tables, Conn}
use yusui.Agent.Forward.{Forwarder, Entry}
use yusui.Agent.Control.{Control, controller}
use yusui.Policy.World.{Engine, World}
use yusui.Policy.Tx.{SubmitInput}

abbrev pub user : ℕ → UserRole → YusuiUser
user id role = record {
  id = id;
  username = "user";
  display_name = none;
  email = none;
  role = role;
  password_hash = none;
  password_alg = "bcrypt";
  password_changed_at = none;
  mfa_secret_enc = [];
  mfa_enabled = false;
  failed_login_count = 0;
  locked_until = none;
  last_login_at = none;
  external_id = none;
  external_issuer = none;
  is_active = true;
  created_at = 0;
  updated_at = 0;
}

abbrev pub project : YusuiProject
project = record {
  id = 1;
  code = "acme";
  name = "Acme";
  cidrs = [];
  netbird_group_id = none;
  created_at = 0;
  command_policy_id = none;
}

abbrev pub agent : YusuiAgent
agent = record {
  id = 7;
  project_id = 1;
  role = Role.primary;
  hostname = "edge";
  netbird_peer_id = none;
  netbird_route_id = none;
  agent_version = none;
  cert_fingerprint = none;
  status = Liveness.online;
  last_seen_at = none;
  registered_at = 0;
  enrollment = Enrollment.enroll_approved;
  netbird_setup_key = none;
}

abbrev pub asset : YusuiAsset
asset = record {
  id = 3;
  project_id = 1;
  name = "db";
  ip_internal = "10.0.0.3";
  ports = pos 22 ∷ [];
  os = none;
  tags = "[]";
  source = "manual";
  created_at = 0;
  command_policy_id = none;
}

abbrev pub ticket : YusuiTicket
ticket = record {
  id = 5;
  pub_id = 100;
  requester_id = 1;
  approver_id = none;
  project_id = 1;
  target_selector = asset_ids (3 ∷ []);
  frozen_asset_ids = [];
  ports = pos 22 ∷ [];
  protocol = "tcp";
  access_kind = "web_shell";
  reason = "upgrade";
  duration_sec = pos 3600;
  status = Status.pending;
  created_at = 0;
  approved_at = none;
  activated_at = none;
  expires_at = none;
  closed_at = none;
  updated_at = 0;
}

-- The same ticket in force.
abbrev pub live_ticket : YusuiTicket
live_ticket = record ticket {
  approver_id = some 2;
  frozen_asset_ids = 3 ∷ [];
  status = Status.active;
  expires_at = some 9000;
}

abbrev pub binding : YusuiPolicyBinding
binding = record {
  ticket_id = 5;
  agent_id = 7;
  agent_rule_id = tk 5;
  src_peer_ips = [];
  agent_applied_at = none;
  apply_attempts = 1;
  revoke_attempts = 0;
  last_error = none;
  updated_at = 0;
}

abbrev pub tables : Tables
tables = record {
  users = user 1 UserRole.requester ∷ user 2 UserRole.approver ∷ [];
  projects = project ∷ [];
  agents = agent ∷ [];
  assets = asset ∷ [];
  asset_credentials = [];
  tickets = [];
  policy_bindings = [];
  audit_logs = [];
}

abbrev pub conn_of : Tables → Conn
conn_of d = record { tables = d; calls = 0; fails = λ _. false; seq = 6; now = 1000 }

abbrev pub forwarder : Forwarder
forwarder = record { rules = []; listens = 0; now = 1000 }

abbrev pub entry : Entry
entry = record {
  addr = "100.64.0.7:4000";
  allow = "100.64.0.1" ∷ [];
  dst_ip = "10.0.0.3";
  dst_port = 22;
  deadline = some 9000;
}

abbrev pub control : Control
control = record {
  agents = (7, forwarder) ∷ [];
  sent = 0;
  undelivered = λ _. false;
  unacked = λ _. false;
}

abbrev pub listen : ℕ → Result String
listen n = ok "100.64.0.7:4000"

abbrev pub engine : Engine Control (Unit {0})
engine = record {
  gateway = controller listen;
  src_peer_ips = "100.64.0.1" ∷ [];
  closer = none;
  parse_addr = λ s. some s;
  ulid = λ n. n + 200;
}

abbrev pub world_of : Tables → World Control (Unit {0})
world_of d = record { conn = conn_of d; forwards = []; gw = control; shell = tt; minted = 0 }

-- A world with nothing submitted yet, one with the ticket pending, and one with it active.
abbrev pub fresh : World Control (Unit {0})
fresh = world_of tables

abbrev pub waiting : World Control (Unit {0})
waiting = world_of (record tables { tickets = ticket ∷ [] })

abbrev pub open_world : World Control (Unit {0})
open_world = world_of (record tables { tickets = live_ticket ∷ []; policy_bindings = binding ∷ [] })

abbrev pub requester : Actor
requester = record { type = "user"; id = "1" }

abbrev pub request : SubmitInput
request = record {
  requester_id = 1;
  project_id = 1;
  asset_ids = 3 ∷ [];
  ports = pos 22 ∷ [];
  protocol = "";
  access_kind = "";
  reason = "upgrade";
  duration_sec = pos 3600;
}
