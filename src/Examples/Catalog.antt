-- ===== src/Examples/Catalog.antt =====
-- The theorems on the catalog, at concrete inputs.
use yusui.Prelude.{ℕ, ◌≡◌, refl, true, false, none, some, List, [], ◌∷◌, ◌⊎◌}
use yusui.Exec.{Error, Result, ok, err, ◌>>=◌, or_else}
use yusui.Store.Rows.{YusuiAgent, enroll_rejected, UserRole, AuthKind}
use yusui.Store.Conn.{Conn, query, in_tx, bracketed}
use yusui.Store.Catalog.{get_asset_by_id, insert_audit, get_primary_agent_for_project, is_target}
use yusui.Store.Agents.{reject_agent, edit_agent, update_agent}
use yusui.Store.Inventory.{CredentialRow, create_asset_credential}
use yusui.Auth.Jwt.{claims_of, TokenKind}
use yusui.Catalog.Secrets.{Sealer, seal, Drawn}
use yusui.Catalog.Service.{
  AgentView, agent_view, reject_it, approve_with, set_enrollment, set_enrollment_tx,
  catalog_create_credential, open_credential_secret,
}
use yusui.Catalog.Enrollment.{Enrolled, set_enrollment-Enrolled}
use yusui.Catalog.Vault.{create_credential-open_credential_secret}
use yusui.Http.Catalog.{approve_agent_route, reject_agent_route}
use yusui.Http.Admins.{Lawful, enrollment_routes-Lawful}
use yusui.Examples.World.{tables, conn_of, agent}
use yusui.Examples.Tokens.{Token, plain, manager}

-- A second project has an agent too.
abbrev spare : YusuiAgent
spare = record agent { id = 8; project_id = 2 }

abbrev conn : Conn
conn = conn_of (record tables { agents = agent ∷ spare ∷ [] })

set_enrollment-Enrolled_example :
    ((view : AgentView) × ((set_enrollment 7 "root" reject_it conn).0 ≡ ok view)
      × Enrolled 7 "root" reject_it conn.now conn.tables view
          (set_enrollment 7 "root" reject_it conn).1.tables)
    ⊎ ((x : Error) × ((set_enrollment 7 "root" reject_it conn).0 ≡ err x)
        × ((set_enrollment 7 "root" reject_it conn).1.tables ≡ conn.tables))
set_enrollment-Enrolled_example = set_enrollment-Enrolled 7 "root" reject_it conn

abbrev rejected : YusuiAgent
rejected = record agent { enrollment = enroll_rejected }

reject_runs : (set_enrollment 7 "root" reject_it conn).0 ≡ ok (agent_view rejected)
unfolding set_enrollment set_enrollment_tx in_tx bracketed query reject_agent edit_agent
    update_agent insert_audit ◌>>=◌
reject_runs = refl

primary_runs :
    (get_primary_agent_for_project 2 (set_enrollment 7 "root" reject_it conn).1).0 ≡ ok spare
unfolding set_enrollment set_enrollment_tx in_tx bracketed query reject_agent edit_agent
    update_agent insert_audit ◌>>=◌ get_primary_agent_for_project is_target
primary_runs = refl

-- A cipher that shows what it seals.
abbrev pub glass : Sealer
glass = record {
  gcm = record {
    nonce_size = 1;
    seal = λ nonce text. text;
    unseal = λ nonce text. some text;
    unseal-seal = λ nonce text h. refl;
  };
  key_id = "local";
}

abbrev drawn : Result (List ℕ)
drawn = ok (9 ∷ [])

abbrev stored : CredentialRow
stored = record {
  id = 6;
  asset_id = 3;
  ssh_user = "ops";
  auth_kind = AuthKind.password;
  secret_kms_key_id = "local";
  fingerprint = none;
  description = none;
  created_at = 1000;
  rotated_at = none;
  is_active = true;
}

create_credential_runs :
    (catalog_create_credential glass drawn 3 "ops" "password" (5 ∷ 6 ∷ []) none none conn).0
    ≡ ok stored
unfolding catalog_create_credential or_else get_asset_by_id query seal create_asset_credential ◌>>=◌
create_credential_runs = refl

nonce_drawn : Drawn glass drawn
unfolding Drawn
nonce_drawn = refl

database_up :
    (catalog_create_credential glass drawn 3 "ops" "password" (5 ∷ 6 ∷ []) none none conn).1.fails
      (catalog_create_credential glass drawn 3 "ops" "password" (5 ∷ 6 ∷ []) none none conn).1.calls
    ≡ false
unfolding catalog_create_credential or_else get_asset_by_id query seal create_asset_credential ◌>>=◌
database_up = refl

create_credential-open_credential_secret_example :
    (open_credential_secret glass 3
      (catalog_create_credential glass drawn 3 "ops" "password" (5 ∷ 6 ∷ []) none none conn).1).0
    ≡ ok ("ops", 5 ∷ 6 ∷ [], AuthKind.password)
create_credential-open_credential_secret_example =
    create_credential-open_credential_secret glass drawn 3 "ops" "password" (5 ∷ 6 ∷ []) none none
      conn stored create_credential_runs nonce_drawn database_up

abbrev root : Token
root = ("key", claims_of 1000 TokenKind.access 9 "root" UserRole.admin 1_800_000_000_000 1)

enrollment_routes-Lawful_example :
    Lawful plain manager 900_000_000_000
      (some root)
      (approve_with "k")
      conn
      (approve_agent_route plain manager (some root) 900_000_000_000 (some 7) "k" conn).1
    × Lawful plain manager 900_000_000_000
        (some root)
        reject_it
        conn
        (reject_agent_route plain manager (some root) 900_000_000_000 (some 7) conn).1
enrollment_routes-Lawful_example =
    enrollment_routes-Lawful plain manager 900_000_000_000 (some root) (some 7) "k" conn
