-- ===== src/Store/Rows.antt =====
-- server/internal/store/models.go: the rows that the ticket workflow reads and writes. A nullable
-- column is an `Option`, an identifier a number, a time in nanoseconds; a column that a CHECK of
-- server/internal/migrate/migrations confines to a few words is a data type of these words. A ULID
-- is its 128-bit value, an address its canonical text.
use yusui.Prelude.{ℕ, String, Option, List, Bool}
use yusui.Prelude.Int.{ℤ}

pub data Status : Type 0 where
  draft pending approved active revoking closed rejected expired : Status
  apply_failed revoke_pending : Status

pub data Role : Type 0 where
  primary secondary : Role

pub data Enrollment : Type 0 where
  enroll_pending enroll_approved enroll_rejected : Enrollment

pub data Liveness : Type 0 where
  unknown online offline degraded frozen : Liveness

-- The JSON in `target_selector`, by what decoding it into `{asset_ids}` gives: the numbers (none of
-- them for an object without the key), or a failure.
pub data Selector : Type 0 where
  asset_ids : List ℕ → Selector
  malformed : Selector

pub record YusuiTicket : Type 0 where
  pub id : ℕ
  pub pub_id : ℕ
  pub requester_id : ℕ
  pub approver_id : Option ℕ
  pub project_id : ℕ
  pub target_selector : Selector
  pub frozen_asset_ids : List ℕ
  pub ports : List ℤ
  pub protocol : String
  pub access_kind : String
  pub reason : String
  pub duration_sec : ℤ
  pub status : Status
  pub created_at : ℕ
  pub approved_at : Option ℕ
  pub activated_at : Option ℕ
  pub expires_at : Option ℕ
  pub closed_at : Option ℕ
  pub updated_at : ℕ

pub data UserRole : Type 0 where
  requester approver admin : UserRole

pub record YusuiUser : Type 0 where
  pub id : ℕ
  pub username : String
  pub display_name : Option String
  pub email : Option String
  pub role : UserRole
  pub password_hash : Option String
  pub password_alg : String
  pub password_changed_at : Option ℕ
  pub mfa_secret_enc : List ℕ
  pub mfa_enabled : Bool
  pub failed_login_count : ℕ
  pub locked_until : Option ℕ
  pub last_login_at : Option ℕ
  pub external_id : Option String
  pub external_issuer : Option String
  pub is_active : Bool
  pub created_at : ℕ
  pub updated_at : ℕ

pub record YusuiAsset : Type 0 where
  pub id : ℕ
  pub project_id : ℕ
  pub name : String
  pub ip_internal : String
  pub ports : List ℤ
  pub os : Option String
  pub tags : String
  pub source : String
  pub created_at : ℕ
  pub command_policy_id : Option ℕ

pub record YusuiProject : Type 0 where
  pub id : ℕ
  pub code : String
  pub name : String
  pub cidrs : List String
  pub netbird_group_id : Option String
  pub created_at : ℕ
  pub command_policy_id : Option ℕ

pub record YusuiAgent : Type 0 where
  pub id : ℕ
  pub project_id : ℕ
  pub role : Role
  pub hostname : String
  pub netbird_peer_id : Option String
  pub netbird_route_id : Option String
  pub agent_version : Option String
  pub cert_fingerprint : Option String
  pub status : Liveness
  pub last_seen_at : Option ℕ
  pub registered_at : ℕ
  pub enrollment : Enrollment
  pub netbird_setup_key : Option String

pub data AuthKind : Type 0 where
  key password : AuthKind

-- The secret is bytes.
pub record YusuiAssetCredential : Type 0 where
  pub id : ℕ
  pub asset_id : ℕ
  pub ssh_user : String
  pub auth_kind : AuthKind
  pub secret_enc : List ℕ
  pub secret_kms_key_id : String
  pub fingerprint : Option String
  pub description : Option String
  pub created_at : ℕ
  pub rotated_at : Option ℕ
  pub is_active : Bool

-- `fmt.Sprintf("yusui:tk:%d", id)`, by the number in it.
pub data RuleId : Type 0 where
  tk : ℕ → RuleId

pub record YusuiPolicyBinding : Type 0 where
  pub ticket_id : ℕ
  pub agent_id : ℕ
  pub agent_rule_id : RuleId
  pub src_peer_ips : List String
  pub agent_applied_at : Option ℕ
  pub apply_attempts : ℕ
  pub revoke_attempts : ℕ
  pub last_error : Option String
  pub updated_at : ℕ

-- The `action` texts of the policy engine and of the catalog.
pub data Action : Type 0 where
  ticket_submit ticket_approve ticket_reject ticket_revoke : Action
  policy_apply policy_apply_failed policy_revoke policy_revoke_pending : Action
  agent_approve agent_reject : Action

-- The JSON of an audit payload, by its fields.
pub data Payload : Type 0 where
  empty : Payload
  submitted : ℕ → List ℕ → Payload
  because : String → Payload
  apply_error : Payload
  applied : ℕ → RuleId → ℕ → ℕ → Payload
  enrollment_of : String → ℕ → Role → Enrollment → Payload

-- `target_type` and `target_id`: a ticket by its ULID, an agent by its number.
pub data Target : Type 0 where
  ticket agent : ℕ → Target

pub record Actor : Type 0 where
  pub type : String
  pub id : String

pub record YusuiAuditLog : Type 0 where
  pub ts : ℕ
  pub actor : Actor
  pub action : Action
  pub target : Target
  pub payload : Payload
