-- ===== src/Catalog/Service.antt =====
-- server/internal/services/catalog.go. An address and a prefix are what netip reads in a text; the
-- words for a role or a kind are checked before they are stored, and so are values from then on. A
-- secret is the bytes of its text.
use yusui.Prelude.{
  ℕ, Bool, true, false, ◌||◌, Option, none, some, List, [], ◌∷◌, map, String, str_eq, if◌then◌else◌,
}
use yusui.Prelude.Int.{ℤ}
use yusui.Exec.{Result, pure, raise, lift, ◌>>=◌, ◌>>◌, or_else, named, invalid}
use yusui.Store.Rows.{
  YusuiProject, YusuiAgent, YusuiAsset, YusuiUser, Role, primary, secondary, Enrollment, Liveness,
  AuthKind, key, password, UserRole, requester, approver, admin, Action, agent_approve,
  agent_reject, Target, enrollment_of,
}
use yusui.Store.Conn.{Db, in_tx}
use yusui.Store.Catalog.{get_project_by_id, get_asset_by_id, insert_audit}
use yusui.Store.Agents.{create_agent, list_agents, approve_agent, reject_agent}
use yusui.Store.Inventory.{
  create_project, create_asset, create_asset_credential, CredentialRow,
  get_active_credential_for_asset,
}
use yusui.Store.Users.{create_user}
use yusui.Auth.Password.{Rune, Unicode, Bcrypt, check_policy}
use yusui.Catalog.Secrets.{Sealer, seal, unseal}

-- `if bad { return invalid(…) }`, and then the rest.
abbrev pub unless : {A : Type 0} → Bool → Db A → Db A
unless bad m = if bad then raise invalid else m

abbrev pub or_invalid : {A B : Type 0} → Option A → (A → Db B) → Db B
or_invalid none f = raise invalid
or_invalid (some a) f = f a

-- ParsePrefix of every text, if all can be read.
unfoldable pub parse_all : (String → Option String) → List String → Option (List String)
parse_all parse [] = some []
parse_all parse (s ∷ ss) =
    let rest = parse_all parse ss in
    elim (parse s) [ none ↦ none | some p ↦ elim rest [ none ↦ none | some ps ↦ some (p ∷ ps) ] ]

abbrev pub is_empty : {A : Type 0} → List A → Bool
is_empty [] = true
is_empty (x ∷ xs) = false

unfoldable pub catalog_create_project :
    (String → Option String) → String → String → List String → Db YusuiProject
unfolding parse_all
catalog_create_project parse_prefix code name cidrs = unless (str_eq code "" || str_eq name "") (
    unless (is_empty cidrs) (
      or_invalid (parse_all parse_prefix cidrs)
        (λ prefixes. create_project (record { code = code; name = name; cidrs = prefixes }))))

abbrev pub role_of : String → Option Role
role_of s =
    if str_eq s "primary"
    then some primary
    else if str_eq s "secondary"
    then some secondary
    else none

unfoldable pub catalog_create_agent : ℕ → String → String → Db YusuiAgent
catalog_create_agent project role hostname = or_invalid (role_of role) (λ r.
    unless (str_eq hostname "")
      (or_else invalid (get_project_by_id project) >> create_agent project r hostname))

-- The row of an agent, its NetBird setup key reduced to whether there is one.
pub record AgentView : Type 0 where
  pub id : ℕ
  pub project_id : ℕ
  pub role : Role
  pub hostname : String
  pub netbird_peer_id : Option String
  pub netbird_route_id : Option String
  pub agent_version : Option String
  pub cert_fingerprint : Option String
  pub status : Liveness
  pub last_seen_at : Option ℕ
  pub registered_at : ℕ
  pub enrollment : Enrollment
  pub has_setup_key : Bool

abbrev pub has_key : Option String → Bool
has_key none = false
has_key (some k) = true

unfoldable pub agent_view : YusuiAgent → AgentView
agent_view a = record {
  id = a.id;
  project_id = a.project_id;
  role = a.role;
  hostname = a.hostname;
  netbird_peer_id = a.netbird_peer_id;
  netbird_route_id = a.netbird_route_id;
  agent_version = a.agent_version;
  cert_fingerprint = a.cert_fingerprint;
  status = a.status;
  last_seen_at = a.last_seen_at;
  registered_at = a.registered_at;
  enrollment = a.enrollment;
  has_setup_key = has_key a.netbird_setup_key;
}

unfoldable pub catalog_list_agents : Db (List AgentView)
unfolding agent_view
catalog_list_agents = list_agents >>= λ rows. pure (map agent_view rows)

-- What `setEnrollment` is asked for: the key that comes with an approval, or a rejection.
pub data Verdict : Type 0 where
  approve_with : String → Verdict
  reject_it : Verdict

abbrev pub key_of : String → Option String
key_of s = if str_eq s "" then none else some s

abbrev pub decide : ℕ → Verdict → Db YusuiAgent
decide id (approve_with k) = approve_agent id (key_of k)
decide id reject_it = reject_agent id

abbrev pub action_of : Verdict → Action
action_of (approve_with k) = agent_approve
action_of reject_it = agent_reject

unfoldable pub set_enrollment_tx : ℕ → String → Verdict → Db AgentView
unfolding agent_view
set_enrollment_tx id actor v = do
  a ← decide id v
  insert_audit (record { type = "user"; id = actor }) (action_of v) (Target.agent id)
      (enrollment_of a.hostname a.project_id a.role a.enrollment)
  pure (agent_view a)

unfoldable pub set_enrollment : ℕ → String → Verdict → Db AgentView
unfolding set_enrollment_tx
set_enrollment id actor v = in_tx (set_enrollment_tx id actor v)

unfoldable pub catalog_approve_agent : ℕ → String → String → Db AgentView
unfolding set_enrollment
catalog_approve_agent id actor setup_key = set_enrollment id actor (approve_with setup_key)

unfoldable pub catalog_reject_agent : ℕ → String → Db AgentView
unfolding set_enrollment
catalog_reject_agent id actor = set_enrollment id actor reject_it

unfoldable pub catalog_create_asset :
    (String → Option String) → ℕ → String → String → List ℤ → Option String → String → Db YusuiAsset
catalog_create_asset parse_addr project name ip ports os tags = unless (str_eq name "") (
    or_invalid (parse_addr ip) (λ addr.
      or_else invalid (get_project_by_id project)
      >> create_asset (record {
        project_id = project;
        name = name;
        ip_internal = addr;
        ports = ports;
        os = os;
        tags = if str_eq tags "" then "{}" else tags;
      })))

abbrev pub auth_kind_of : String → Option AuthKind
auth_kind_of s =
    if str_eq s "key" then some key else if str_eq s "password" then some password else none

module _ (sealer : Sealer) where
  unfoldable pub catalog_create_credential :
      Result (List ℕ)
      → ℕ
      → String
      → String
      → List ℕ
      → Option String
      → Option String
      → Db CredentialRow
  catalog_create_credential drawn asset ssh_user auth_kind secret fingerprint description =
      unless (str_eq ssh_user "") (
        or_invalid (auth_kind_of auth_kind) (λ kind. unless (is_empty secret) (
          or_else invalid (get_asset_by_id asset) >> lift (seal sealer drawn secret) >>= λ enc.
          create_asset_credential (record {
            asset_id = asset;
            ssh_user = ssh_user;
            auth_kind = kind;
            secret_enc = enc;
            secret_kms_key_id = sealer.key_id;
            fingerprint = fingerprint;
            description = description;
          }))))

  unfoldable pub open_credential_secret : ℕ → Db (String × List ℕ × AuthKind)
  open_credential_secret asset = do
    cred ← get_active_credential_for_asset asset
    plain ← lift (unseal sealer cred.secret_enc)
    pure (cred.ssh_user, plain, cred.auth_kind)

abbrev pub user_role_of : String → Option UserRole
user_role_of s =
    if str_eq s "requester"
    then some requester
    else if str_eq s "approver"
    then some approver
    else if str_eq s "admin"
    then some admin
    else none

module _ (u : Unicode) (b : Bcrypt) where
  unfoldable pub catalog_create_user :
      String → Option String → Option String → String → List Rune → Db YusuiUser
  catalog_create_user username display_name email role pw = unless (str_eq username "") (
      or_invalid (user_role_of role) (λ r.
        lift (named invalid (check_policy u pw)) >> lift (b.generate pw) >>= λ hash.
        create_user (record {
          username = username;
          display_name = display_name;
          email = email;
          role = r;
          password_hash = some hash;
          mfa_secret_enc = [];
          mfa_enabled = false;
        })))
