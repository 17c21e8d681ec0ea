-- ===== src/Config.antt =====
-- internal/config/config.go: the configuration, its defaults, what the environment sets, and its
-- validation.
pub mod Loading
pub mod Validation
mod Tests
use turnfly.Prelude.{
  ℕ, ◌+◌, Bool, true, false, not, ◌||◌, Option, none, some, List, [], ◌∷◌, ◌++◌, ◌==◌,
  if◌then◌else◌,
}
use turnfly.Int.{ℤ, pos, ltb_ℤ, eq_ℤ}
use turnfly.Text.{Bytes, codes, is_empty, beq}
use turnfly.Text.Decimal.{parse_int}
use turnfly.Text.Strings.{equal_fold}

pub record Config : Type 0 where
  pub turn_port : ℤ
  pub turn_realm : Bytes
  pub turn_shared_secret : Bytes
  pub http_port : ℤ
  pub admin_api_token : Bytes
  pub metrics_addr : Bytes
  pub fly_app_name : Bytes
  pub fly_org : Bytes
  pub fly_api_token : Bytes
  pub relay_mode : Bool
  pub relay_peers : List Bytes
  pub log_level : Bytes

-- `DefaultConfig`
unfoldable pub default_config : Config
default_config = record {
  turn_port = pos 3478;
  turn_realm = [];
  turn_shared_secret = [];
  http_port = pos 8080;
  admin_api_token = [];
  metrics_addr = codes ":9090";
  fly_app_name = [];
  fly_org = [];
  fly_api_token = [];
  relay_mode = false;
  relay_peers = [];
  log_level = codes "info";
}

-- `strings.Split(s, ",")`: the part before the first comma, and those behind it.
abbrev add_to_first : ℕ → List Bytes → List Bytes
add_to_first c [] = (c ∷ []) ∷ []
add_to_first c (s ∷ ss) = (c ∷ s) ∷ ss

unfoldable pub split_commas : Bytes → List Bytes
split_commas [] = [] ∷ []
split_commas (c ∷ s) =
    let rest = split_commas s in if c == 44 then [] ∷ rest else add_to_first c rest

-- `if v := os.Getenv(name); v != "" { field = v }`
unfoldable pub env_text : Bytes → Bytes → Bytes
env_text v old = if is_empty v then old else v

-- `if p, err := strconv.Atoi(v); err == nil { field = p }`
unfoldable pub env_port : Bytes → ℤ → ℤ
env_port v old = if is_empty v then old else elim (parse_int v) [ none ↦ old | some p ↦ p ]

unfoldable pub env_flag : Bytes → Bool → Bool
env_flag v old = if is_empty v then old else equal_fold v (codes "true") || beq v (codes "1")

unfoldable pub env_list : Bytes → List Bytes → List Bytes
env_list v old = if is_empty v then old else split_commas v

-- `(*Config).LoadFromEnv`; `getenv` is `os.Getenv`, empty for a variable that is not set.
unfoldable pub load_from_env : (Bytes → Bytes) → Config → Config
load_from_env getenv c = record {
  turn_port = env_port (getenv (codes "TURN_PORT")) c.turn_port;
  turn_realm = env_text (getenv (codes "TURN_REALM")) c.turn_realm;
  turn_shared_secret = env_text (getenv (codes "TURN_SHARED_SECRET")) c.turn_shared_secret;
  http_port = env_port (getenv (codes "HTTP_PORT")) c.http_port;
  admin_api_token = env_text (getenv (codes "ADMIN_API_TOKEN")) c.admin_api_token;
  metrics_addr = env_text (getenv (codes "METRICS_ADDR")) c.metrics_addr;
  fly_app_name = env_text (getenv (codes "FLY_APP_NAME")) c.fly_app_name;
  fly_org = env_text (getenv (codes "FLY_ORG")) c.fly_org;
  fly_api_token = env_text (getenv (codes "FLY_API_TOKEN")) c.fly_api_token;
  relay_mode = env_flag (getenv (codes "RELAY_MODE")) c.relay_mode;
  relay_peers = env_list (getenv (codes "RELAY_PEERS")) c.relay_peers;
  log_level = env_text (getenv (codes "LOG_LEVEL")) c.log_level;
}

pub data ConfigError : Type 0 where
  realm_required : ConfigError
  secret_required : ConfigError
  token_required : ConfigError
  turn_port_range : ℤ → ConfigError
  http_port_range : ℤ → ConfigError
  log_level_unknown : Bytes → ConfigError
  same_ports : ℤ → ConfigError

-- `if bad { errs = append(errs, err) }`
abbrev pub report : Bool → ConfigError → List ConfigError
report true e = e ∷ []
report false e = []

abbrev pub out_of_range : ℤ → Bool
out_of_range p = ltb_ℤ p (pos 1) || ltb_ℤ (pos 65535) p

unfoldable pub is_level : Bytes → Bool
is_level s =
    beq s (codes "debug")
    || (beq s (codes "info") || (beq s (codes "warn") || beq s (codes "error")))

-- `(*Config).Validate`: the errors that `errors.Join` joins, so none if the configuration is valid.
unfoldable pub validate : Config → List ConfigError
unfolding is_level
validate c =
    report (is_empty c.turn_realm) realm_required
    ++ (report (is_empty c.turn_shared_secret) secret_required
        ++ (report (is_empty c.admin_api_token) token_required
            ++ (report (out_of_range c.turn_port) (turn_port_range c.turn_port)
                ++ (report (out_of_range c.http_port) (http_port_range c.http_port)
                    ++ (report (not (is_level c.log_level)) (log_level_unknown c.log_level)
                        ++ report (eq_ℤ c.turn_port c.http_port) (same_ports c.turn_port))))))
