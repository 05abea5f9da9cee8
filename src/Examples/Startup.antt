-- ===== src/Examples/Startup.antt =====
-- The theorems on the configuration, on the first administrator and on NetBird, at concrete inputs.
use yusui.Prelude.{
  ℕ, ◌≡◌, refl, sym, ap, String, true, false, none, some, Bool, Option, List, [], ◌∷◌, ◌++◌, ◌==◌,
  ◌⊎◌, arith,
}
use yusui.Prelude.Int.{pos}
use yusui.Store.Conn.{Conn}
use yusui.Netbird.{
  Group, Management, Request, get_groups, get_policies, post_group, post_policy, post_setup_key,
  done, failed, ApiError, group_named, list_groups, create_group, ensure_group, call, classify,
}
use yusui.Netbird.Ensuring.{Holds, Named, ensure_group-ensure_group}
use yusui.Config.{Config, split_csv}
use yusui.Config.Lists.{join, Reads, split_csv-Reads}
use yusui.Startup.{seed_admin, server_group}
use yusui.Startup.Seeding.{Starts, seed_admin-Starts}
use yusui.Examples.World.{tables, conn_of}
use yusui.Examples.Tokens.{ascii, secret, hash}

abbrev comma : ℕ → Bool
comma a = a == 44

abbrev space : ℕ → Bool
space a = a == 32

-- " a,, b".
abbrev value : List ℕ
value = 32 ∷ 97 ∷ 44 ∷ 44 ∷ 32 ∷ 98 ∷ []

comma_only : (a : ℕ) → comma a ≡ true → a ≡ 44
comma_only a h = ground arith

split_csv-Reads_example :
    Reads comma space 44 value (split_csv comma space value)
    × (split_csv comma space (join comma space 44 (split_csv comma space value))
        ≡ split_csv comma space value)
split_csv-Reads_example = split_csv-Reads comma space 44 value refl comma_only

abbrev config : Config
config = record {
  database_url = "postgres://";
  http_addr = ":8080";
  log_level = "info";
  env_name = "dev";
  jwt_secret = "s";
  access_ttl = pos 1;
  refresh_ttl = pos 1;
  step_up_window = pos 1;
  admin_username = "admin";
  admin_password = "Correct-Horse-1";
  credential_key = "";
  server_peer_ips = [];
  recordings_dir = "var";
  agent_gateway_mode = "mock";
  agent_grpc_addr = ":9090";
  agent_register_token = "";
  netbird_enabled = true;
  netbird_mgmt_url = "https://netbird";
  netbird_token = "t";
}

abbrev conn : Conn
conn = conn_of (record tables { users = [] })

seed_admin-Starts_example :
    Starts ascii hash (λ _. secret) config conn (seed_admin ascii hash (λ _. secret) config conn)
seed_admin-Starts_example = seed_admin-Starts ascii hash (λ _. secret) config conn

-- A service that keeps its groups, the newest last; a group's id is its name.
data Body : Type 0 where
  group_body : Group → Body
  groups_body : List Group → Body
  no_body : Body

abbrev respond : Request → List Group → Option (ℕ × Body) × List Group
respond get_groups s = (some (200, groups_body s), s)
respond (post_group name) s = (
  some (200, group_body (record { id = name; name = name })),
  s ++ record { id = name; name = name } ∷ [],
)
respond get_policies s = (none, s)
respond (post_policy _) s = (none, s)
respond (post_setup_key _) s = (none, s)

abbrev read_groups : Body → Option (List Group)
read_groups (groups_body gs) = some gs
read_groups (group_body _) = none
read_groups no_body = none

abbrev read_group : Body → Option Group
read_group (group_body g) = some g
read_group (groups_body _) = none
read_group no_body = none

abbrev service : Management (List Group) Body
service = record {
  send = respond;
  is_blank = λ _. false;
  url_ok = true;
  groups_of = read_groups;
  group_of = read_group;
  policies_of = λ _. none;
  policy_of = λ _. none;
  setup_key_of = λ _. none;
}

same_groups : (s : List Group) (body : Body) → groups_body s ≡ body → read_groups body ≡ some s
same_groups s body e = sym (ap read_groups e)

same_group :
    (name : String) (body : Body)
    → group_body (record { id = name; name = name }) ≡ body
    → read_group body ≡ some (record { id = name; name = name })
same_group name body e = sym (ap read_group e)

service-Holds : Holds service (λ s. s)
service-Holds = record {
  listing = λ s. refl;
  shown = λ s status body e fine. (refl, same_groups s body (cc e));
  posted = λ s name status body e fine. (refl, name, same_group name body (cc e), refl);
}

-- A group of another name stands first.
abbrev others : List Group
others = record { id = "g1"; name = "agents" } ∷ []

first_run : (ensure_group service server_group others).0 ≡ done server_group
unfolding ensure_group list_groups call create_group group_named classify
first_run = refl

abbrev once : List Group
once = (ensure_group service server_group others).1

ensure_group-ensure_group_example :
    Named server_group server_group once
    × ((ensure_group service server_group once).1 ≡ once)
    × (((ensure_group service server_group once).0 ≡ done server_group)
        ⊎ ((x : ApiError) × ((ensure_group service server_group once).0 ≡ failed x)))
ensure_group-ensure_group_example =
    ensure_group-ensure_group service (λ s. s) service-Holds server_group server_group others
      first_run
