-- ===== src/Config.antt =====
-- server/internal/config/config.go. `env` is the environment, where a missing variable is empty;
-- time.ParseDuration and the spaces of unicode.IsSpace are parameters, a duration is in nanoseconds.
pub mod Lists
use yusui.Prelude.{
  ℕ, ◌*◌, Bool, true, false, ◌&&◌, Option, none, some, List, [], ◌∷◌, String, str_eq, if◌then◌else◌,
  map,
}
use yusui.Prelude.Int.{ℤ, pos}
use yusui.Exec.{Result, ok, err, invalid}
use text.Mathlib.TextBridge.{to_list, of_list}
use Prim.Native.Char.{Char}

-- strings.Split at the separator.
module _ {A : Type 0} (is_sep is_space : A → Bool) where
  abbrev pub onto_first : A → List (List A) → List (List A)
  onto_first a [] = (a ∷ []) ∷ []
  onto_first a (p ∷ ps) = (a ∷ p) ∷ ps

  unfoldable pub split : List A → List (List A)
  split [] = [] ∷ []
  split (a ∷ v) = let rest = split v in if is_sep a then [] ∷ rest else onto_first a rest

  -- strings.TrimSpace.
  unfoldable pub trim_left : List A → List A
  trim_left [] = []
  trim_left (a ∷ v) = let rest = trim_left v in if is_space a then rest else a ∷ v

  abbrev pub is_nil : List A → Bool
  is_nil [] = true
  is_nil (_ ∷ _) = false

  unfoldable pub trim_right : List A → List A
  trim_right [] = []
  trim_right (a ∷ v) = let rest = trim_right v in if is_nil rest && is_space a then [] else a ∷ rest

  unfoldable pub trim : List A → List A
  unfolding trim_left trim_right
  trim v = trim_right (trim_left v)

  unfoldable pub keep : List (List A) → List (List A)
  unfolding trim
  keep [] = []
  keep (p ∷ ps) = let rest = keep ps in if is_nil (trim p) then rest else trim p ∷ rest

  unfoldable pub split_csv : List A → List (List A)
  unfolding split keep
  split_csv v = if is_nil v then [] else keep (split v)

pub record Config : Type 0 where
  pub database_url : String
  pub http_addr : String
  pub log_level : String
  pub env_name : String
  pub jwt_secret : String
  pub access_ttl : ℤ
  pub refresh_ttl : ℤ
  pub step_up_window : ℤ
  pub admin_username : String
  pub admin_password : String
  pub credential_key : String
  pub server_peer_ips : List String
  pub recordings_dir : String
  pub agent_gateway_mode : String
  pub agent_grpc_addr : String
  pub agent_register_token : String
  pub netbird_enabled : Bool
  pub netbird_mgmt_url : String
  pub netbird_token : String

abbrev pub minutes : ℕ → ℤ
minutes n = pos (n * 60_000_000_000)

module _ (is_comma is_space : Char → Bool) (parse_duration : String → Option ℤ)
    (env : String → String) where
  unfoldable pub getenv : String → String → String
  getenv key default = if str_eq (env key) "" then default else env key

  abbrev pub or_default : ℤ → Option ℤ → ℤ
  or_default default none = default
  or_default default (some d) = d

  unfoldable pub getdur : String → ℤ → ℤ
  getdur key default =
      if str_eq (env key) "" then default else or_default default (parse_duration (env key))

  unfoldable pub peer_ips : String → List String
  unfolding split_csv
  peer_ips v = map of_list (split_csv is_comma is_space (to_list v))

  abbrev pub loaded : Config
  loaded = record {
    database_url = env "DATABASE_URL";
    http_addr = getenv "HTTP_ADDR" ":8080";
    log_level = getenv "LOG_LEVEL" "info";
    env_name = getenv "ENV" "dev";
    jwt_secret = env "JWT_SECRET";
    access_ttl = getdur "ACCESS_TTL" (minutes 15);
    refresh_ttl = getdur "REFRESH_TTL" (minutes 10080);
    step_up_window = getdur "STEPUP_WINDOW" (minutes 30);
    admin_username = getenv "ADMIN_USERNAME" "admin";
    admin_password = env "ADMIN_PASSWORD";
    credential_key = env "CREDENTIAL_KEY";
    server_peer_ips = peer_ips (env "SERVER_PEER_IPS");
    recordings_dir = getenv "RECORDINGS_DIR" "var/recordings";
    agent_gateway_mode = getenv "AGENT_GATEWAY" "mock";
    agent_grpc_addr = getenv "AGENT_GRPC_ADDR" ":9090";
    agent_register_token = env "AGENT_REGISTER_TOKEN";
    netbird_enabled = str_eq (env "NETBIRD_ENABLED") "true";
    netbird_mgmt_url = env "NETBIRD_MGMT_URL";
    netbird_token = env "NETBIRD_TOKEN";
  }

  unfoldable pub load : Result Config
  unfolding getenv getdur peer_ips
  load = if str_eq (env "DATABASE_URL") "" then err invalid else ok loaded

unfoldable pub require_serve : Config → Result (Unit {0})
require_serve c = if str_eq c.jwt_secret "" then err invalid else ok tt
