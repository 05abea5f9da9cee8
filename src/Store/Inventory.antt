-- ===== src/Store/Inventory.antt =====
-- The queries of the catalog in server/internal/store: projects.sql.go, assets.sql.go and
-- asset_credentials.sql.go, with the constraints of the first migration. A row stands at the end of
-- its table, as its id is the largest, so that ORDER BY id is the order of the list.
use mathlib.Core.List.{reverse}
use yusui.Prelude.{
  ℕ, ◌+◌, Bool, true, not, ◌&&◌, ◌||◌, Option, none, List, [], ◌∷◌, ◌++◌, map, String, str_eq,
  if◌then◌else◌, ◌==◌, first, exists, select,
}
use yusui.Prelude.Int.{ℤ}
use yusui.Exec.{ok, err, constraint, duplicate}
use yusui.Store.Rows.{YusuiProject, YusuiAsset, YusuiAssetCredential, AuthKind}
use yusui.Store.Conn.{Conn, Db, query, read, one}
use yusui.Store.Tickets.{has_project}

pub record CreateProjectParams : Type 0 where
  pub code : String
  pub name : String
  pub cidrs : List String

abbrev pub new_project : ℕ → ℕ → CreateProjectParams → YusuiProject
new_project id now p = record {
  id = id;
  code = p.code;
  name = p.name;
  cidrs = p.cidrs;
  netbird_group_id = none;
  created_at = now;
  command_policy_id = none;
}

-- UNIQUE (code). The CHECK on the length of `cidrs` is NULL for an empty array, which passes.
unfoldable pub create_project : CreateProjectParams → Db YusuiProject
create_project a = query λ c.
    let p = new_project c.seq c.now a in
    let d = record c { seq = c.seq + 1 } in
    if exists (λ x. x.id == c.seq) c.projects || exists (λ x. str_eq x.code a.code) c.projects
    then (err duplicate, d)
    else (ok p, record d { tables = record (c.tables) { projects = c.projects ++ p ∷ [] } })

unfoldable pub get_project_by_code : String → Db YusuiProject
get_project_by_code code = read λ c. one (first (λ p. str_eq p.code code) c.projects)

unfoldable pub list_projects : Db (List YusuiProject)
list_projects = read λ c. ok c.projects

pub record CreateAssetParams : Type 0 where
  pub project_id : ℕ
  pub name : String
  pub ip_internal : String
  pub ports : List ℤ
  pub os : Option String
  pub tags : String

abbrev pub new_asset : ℕ → ℕ → CreateAssetParams → YusuiAsset
new_asset id now p = record {
  id = id;
  project_id = p.project_id;
  name = p.name;
  ip_internal = p.ip_internal;
  ports = p.ports;
  os = p.os;
  tags = p.tags;
  source = "manual";
  created_at = now;
  command_policy_id = none;
}

-- UNIQUE (project_id, ip_internal), and the keys.
unfoldable pub create_asset : CreateAssetParams → Db YusuiAsset
create_asset a = query λ c.
    let r = new_asset c.seq c.now a in
    let d = record c { seq = c.seq + 1 } in
    if exists (λ x. x.id == c.seq) c.assets
      || exists (λ x. x.project_id == a.project_id && str_eq x.ip_internal a.ip_internal) c.assets
    then (err duplicate, d)
    else if not (has_project a.project_id c.projects)
    then (err constraint, d)
    else (ok r, record d { tables = record (c.tables) { assets = c.assets ++ r ∷ [] } })

unfoldable pub list_assets : Db (List YusuiAsset)
list_assets = read λ c. ok c.assets

unfoldable pub list_assets_by_project : ℕ → Db (List YusuiAsset)
list_assets_by_project project = read λ c. ok (select (λ a. a.project_id == project) c.assets)

pub record CreateAssetCredentialParams : Type 0 where
  pub asset_id : ℕ
  pub ssh_user : String
  pub auth_kind : AuthKind
  pub secret_enc : List ℕ
  pub secret_kms_key_id : String
  pub fingerprint : Option String
  pub description : Option String

-- The columns of a credential without its secret: CreateAssetCredentialRow and
-- ListCredentialsForAssetRow.
pub record CredentialRow : Type 0 where
  pub id : ℕ
  pub asset_id : ℕ
  pub ssh_user : String
  pub auth_kind : AuthKind
  pub secret_kms_key_id : String
  pub fingerprint : Option String
  pub description : Option String
  pub created_at : ℕ
  pub rotated_at : Option ℕ
  pub is_active : Bool

abbrev pub credential_row : YusuiAssetCredential → CredentialRow
credential_row r = record {
  id = r.id;
  asset_id = r.asset_id;
  ssh_user = r.ssh_user;
  auth_kind = r.auth_kind;
  secret_kms_key_id = r.secret_kms_key_id;
  fingerprint = r.fingerprint;
  description = r.description;
  created_at = r.created_at;
  rotated_at = r.rotated_at;
  is_active = r.is_active;
}

abbrev pub new_credential : ℕ → ℕ → CreateAssetCredentialParams → YusuiAssetCredential
new_credential id now p = record {
  id = id;
  asset_id = p.asset_id;
  ssh_user = p.ssh_user;
  auth_kind = p.auth_kind;
  secret_enc = p.secret_enc;
  secret_kms_key_id = p.secret_kms_key_id;
  fingerprint = p.fingerprint;
  description = p.description;
  created_at = now;
  rotated_at = none;
  is_active = true;
}

abbrev pub has_credential : CreateAssetCredentialParams → Conn → Bool
has_credential a c =
    exists (λ x. x.id == c.seq) c.asset_credentials
    || exists (λ x. x.asset_id == a.asset_id && str_eq x.ssh_user a.ssh_user && x.is_active)
        c.asset_credentials

abbrev pub has_asset : ℕ → Conn → Bool
has_asset id c = exists (λ x. x.id == id) c.assets

-- UNIQUE (asset_id, ssh_user, is_active), and the keys.
unfoldable pub create_asset_credential : CreateAssetCredentialParams → Db CredentialRow
create_asset_credential a = query λ c.
    let r = new_credential c.seq c.now a in
    let d = record c { seq = c.seq + 1 } in
    if has_credential a c
    then (err duplicate, d)
    else if not (has_asset a.asset_id c)
    then (err constraint, d)
    else (
      ok (credential_row r),
      record d { tables = record (c.tables) { asset_credentials = c.asset_credentials ++ r ∷ [] } },
    )

-- ORDER BY id DESC LIMIT 1.
unfoldable pub newest_active : ℕ → List YusuiAssetCredential → Option YusuiAssetCredential
newest_active asset rows = first (λ r. r.asset_id == asset && r.is_active) (reverse rows)

unfoldable pub get_active_credential_for_asset : ℕ → Db YusuiAssetCredential
unfolding newest_active
get_active_credential_for_asset asset = read λ c. one (newest_active asset c.asset_credentials)

unfoldable pub list_credentials_for_asset : ℕ → Db (List CredentialRow)
list_credentials_for_asset asset =
    read λ c. ok (map credential_row (select (λ r. r.asset_id == asset) c.asset_credentials))
