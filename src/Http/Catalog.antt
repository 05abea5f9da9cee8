-- ===== src/Http/Catalog.antt =====
-- server/internal/httpapi/catalog.go, and its routes in server/internal/httpapi/router.go. A path id
-- that is no number, and a body that does not decode, are `none`.
use yusui.Prelude.{ℕ, Option, none, some, List, [], ◌∷◌, String}
use yusui.Prelude.Int.{ℤ}
use yusui.Exec.{Error, Result, ok, err, invalid, duplicate, no_rows}
use yusui.Store.Rows.{YusuiProject, YusuiAgent, YusuiAsset, YusuiUser, admin}
use yusui.Store.Conn.{Conn, Db}
use yusui.Store.Catalog.{get_project_by_id, get_asset_by_id}
use yusui.Store.Inventory.{list_projects, list_assets, CredentialRow, list_credentials_for_asset}
use yusui.Store.Users.{ListUsersRow, list_users}
use yusui.Auth.Password.{Rune, Unicode, Bcrypt}
use yusui.Auth.Jwt.{Jwt, Manager}
use yusui.Auth.Guards.{
  Answer, reply, refuse, Handler, Principal, authenticator, require_role, require_step_up,
}
use yusui.Catalog.Secrets.{Sealer}
use yusui.Catalog.Service.{
  AgentView, catalog_create_project, catalog_create_agent, catalog_list_agents,
  catalog_approve_agent, catalog_reject_agent, catalog_create_asset, catalog_create_credential,
  catalog_create_user,
}
use yusui.Http.Accounts.{PublicUser, to_public_user}

-- `fail` of the catalog: the status code of an error.
unfoldable pub catalog_fail : {A : Type 0} → Error → Answer A
catalog_fail invalid = refuse 400 "validation"
catalog_fail duplicate = refuse 409 "already_exists"
catalog_fail _ = refuse 500 "internal"

unfoldable pub agent_action_fail : {A : Type 0} → Error → Answer A
unfolding catalog_fail
agent_action_fail no_rows = refuse 404 "not_found"
agent_action_fail x = catalog_fail x

-- Whatever went wrong, there is nothing there.
abbrev pub missing : {A : Type 0} → Error → Answer A
missing x = refuse 404 "not_found"

abbrev pub answer_with : {A : Type 0} → (Error → Answer A) → ℕ → Result A → Answer A
answer_with f status (ok a) = reply status a
answer_with f status (err x) = f x

abbrev pub to_answer_with : {A : Type 0} → (Error → Answer A) → ℕ → Db A → Handler Conn A
to_answer_with f status m c = (answer_with f status (m c).0, (m c).1)

abbrev pub bad_request : {A : Type 0} → Handler Conn A
bad_request c = (refuse 400 "bad_request", c)

-- A handler of a path id or of a body.
abbrev pub given : {A B : Type 0} → (A → Handler Conn B) → Option A → Handler Conn B
given f none = bad_request
given f (some a) = f a

pub record ProjectBody : Type 0 where
  pub code : String
  pub name : String
  pub cidrs : List String

unfoldable pub create_project_handler :
    (String → Option String) → Option ProjectBody → Handler Conn YusuiProject
unfolding catalog_fail
create_project_handler parse_prefix =
    given λ b.
      to_answer_with catalog_fail 201 (catalog_create_project parse_prefix b.code b.name b.cidrs)

unfoldable pub list_projects_handler : Handler Conn (List YusuiProject)
unfolding catalog_fail
list_projects_handler = to_answer_with catalog_fail 200 list_projects

unfoldable pub get_project_handler : Option ℕ → Handler Conn YusuiProject
get_project_handler = given λ id. to_answer_with missing 200 (get_project_by_id id)

pub record AgentBody : Type 0 where
  pub project_id : ℕ
  pub role : String
  pub hostname : String

unfoldable pub create_agent_handler : Option AgentBody → Handler Conn YusuiAgent
unfolding catalog_fail
create_agent_handler =
    given λ b. to_answer_with catalog_fail 201 (catalog_create_agent b.project_id b.role b.hostname)

unfoldable pub list_agents_handler : Handler Conn (List AgentView)
unfolding catalog_fail
list_agents_handler = to_answer_with catalog_fail 200 catalog_list_agents

unfoldable pub approve_agent_handler : Option ℕ → String → Principal → Handler Conn AgentView
unfolding agent_action_fail
approve_agent_handler oid setup_key p =
    given
      (λ id. to_answer_with agent_action_fail 200 (catalog_approve_agent id p.username setup_key))
      oid

unfoldable pub reject_agent_handler : Option ℕ → Principal → Handler Conn AgentView
unfolding agent_action_fail
reject_agent_handler oid p =
    given (λ id. to_answer_with agent_action_fail 200 (catalog_reject_agent id p.username)) oid

pub record AssetBody : Type 0 where
  pub project_id : ℕ
  pub name : String
  pub ip_internal : String
  pub ports : List ℤ
  pub os : Option String
  pub tags : String

unfoldable pub create_asset_handler :
    (String → Option String) → Option AssetBody → Handler Conn YusuiAsset
unfolding catalog_fail
create_asset_handler parse_addr = given λ b.
    to_answer_with catalog_fail 201
      (catalog_create_asset parse_addr b.project_id b.name b.ip_internal b.ports b.os b.tags)

unfoldable pub list_assets_handler : Handler Conn (List YusuiAsset)
unfolding catalog_fail
list_assets_handler = to_answer_with catalog_fail 200 list_assets

unfoldable pub get_asset_handler : Option ℕ → Handler Conn YusuiAsset
get_asset_handler = given λ id. to_answer_with missing 200 (get_asset_by_id id)

pub record CredentialBody : Type 0 where
  pub ssh_user : String
  pub auth_kind : String
  pub secret : List ℕ
  pub fingerprint : Option String
  pub description : Option String

unfoldable pub create_credential_handler :
    Sealer → Result (List ℕ) → Option ℕ → Option CredentialBody → Handler Conn CredentialRow
unfolding catalog_fail
create_credential_handler sealer drawn oid body =
    given
      (λ id.
        given
          (λ b. to_answer_with catalog_fail 201 (
            catalog_create_credential sealer drawn id b.ssh_user b.auth_kind b.secret b.fingerprint
              b.description))
          body)
      oid

unfoldable pub list_credentials_handler : Option ℕ → Handler Conn (List CredentialRow)
unfolding catalog_fail
list_credentials_handler =
    given λ id. to_answer_with catalog_fail 200 (list_credentials_for_asset id)

pub record UserBody : Type 0 where
  pub username : String
  pub display_name : Option String
  pub email : Option String
  pub role : String
  pub password : List Rune

-- The answer to a user created does not have the hash.
abbrev pub public_answer : Result YusuiUser → Answer PublicUser
public_answer (ok u) = reply 201 (to_public_user u)
public_answer (err x) = catalog_fail x

unfoldable pub create_user_handler : Unicode → Bcrypt → Option UserBody → Handler Conn PublicUser
unfolding catalog_fail to_public_user
create_user_handler u b = given λ r c.
    let m = catalog_create_user u b r.username r.display_name r.email r.role r.password c in
    (public_answer m.0, m.1)

unfoldable pub list_users_handler : Handler Conn (List ListUsersRow)
unfolding catalog_fail
list_users_handler = to_answer_with catalog_fail 200 list_users

abbrev pub db_clock : Conn → ℕ
db_clock c = c.now

module _ {T : Type 0} (j : Jwt T) (m : Manager) (bearer : Option T) where
  -- Catalog reads: anyone with a valid token.
  abbrev pub read_route : {A : Type 0} → Handler Conn A → Handler Conn A
  read_route h = authenticator j m db_clock bearer λ p. h

  -- Admin writes.
  abbrev pub admin_route : {A : Type 0} → (Principal → Handler Conn A) → Handler Conn A
  admin_route h = authenticator j m db_clock bearer (require_role (admin ∷ []) h)

  unfoldable pub approve_agent_route : ℕ → Option ℕ → String → Handler Conn AgentView
  unfolding approve_agent_handler
  approve_agent_route window id setup_key =
      admin_route (require_step_up db_clock window (approve_agent_handler id setup_key))

  unfoldable pub reject_agent_route : ℕ → Option ℕ → Handler Conn AgentView
  unfolding reject_agent_handler
  reject_agent_route window id =
      admin_route (require_step_up db_clock window (reject_agent_handler id))
