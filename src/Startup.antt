-- ===== src/Startup.antt =====
-- server/cmd/yusui-server/main.go: what the server does to its database and to NetBird when it starts.
-- `runes` ranges over a text.
pub mod Seeding
use yusui.Prelude.{
  ℕ, Bool, true, false, not, ◌||◌, none, some, List, [], ◌∷◌, String, str_eq, if◌then◌else◌, ltb,
}
use yusui.Exec.{pure, lift, ◌>>=◌, ◌>>◌}
use yusui.Store.Rows.{UserRole, admin}
use yusui.Store.Conn.{Db}
use yusui.Store.Users.{CreateUserParams, count_users, create_user}
use yusui.Auth.Password.{Rune, Unicode, Bcrypt, check_policy}
use yusui.Config.{Config}
use yusui.Netbird.{ErrClass, Management, Outcome, done, failed, ensure_group, ensure_builtin_policy}

unfoldable pub admin_params : Config → String → CreateUserParams
admin_params cfg hash = record {
  username = cfg.admin_username;
  display_name = some "Administrator";
  email = none;
  role = admin;
  password_hash = some hash;
  mfa_secret_enc = [];
  mfa_enabled = false;
}

module _ (u : Unicode) (b : Bcrypt) (runes : String → List Rune) where
  abbrev pub first_admin : Config → Db (Unit {0})
  first_admin cfg =
      lift (check_policy u (runes cfg.admin_password))
      >> lift (b.generate (runes cfg.admin_password))
      >>= λ hash. create_user (admin_params cfg hash) >> pure tt

  unfoldable pub seed_admin : Config → Db (Unit {0})
  unfolding admin_params
  seed_admin cfg =
      if str_eq cfg.admin_password ""
      then pure tt
      else (count_users >>= λ n. if ltb 0 n then pure tt else first_admin cfg)

-- What installNetBird logs.
pub data Installation : Type 0 where
  disabled incomplete : Installation
  no_group no_policy : ErrClass → Installation
  ensured : String → String → Installation

abbrev pub server_group : String
server_group = "yusui:server-peers"

abbrev pub builtin_policy : String
builtin_policy = "yusui:builtin:server-to-agents"

module _ {S Body : Type 0} (api : Management S Body) where
  abbrev pub with_policy : String → Outcome String → S → Installation × S
  with_policy group (failed e) s = (no_policy e.class, s)
  with_policy group (done policy) s = (ensured group policy, s)

  abbrev pub with_group : Outcome String → S → Installation × S
  with_group (failed e) s = (no_group e.class, s)
  with_group (done group) s =
      let r =
        ensure_builtin_policy api
          (record { name = builtin_policy; source = group; destinations = group ∷ [] }) s in
      with_policy group r.0 r.1

  unfoldable pub install_netbird : Config → S → Installation × S
  unfolding ensure_group ensure_builtin_policy
  install_netbird cfg s =
      let r = ensure_group api server_group s in
      if not cfg.netbird_enabled
      then (disabled, s)
      else if str_eq cfg.netbird_mgmt_url "" || str_eq cfg.netbird_token ""
      then (incomplete, s)
      else with_group r.0 r.1
