-- ===== src/Cli/Planning/Machine.antt =====
-- The environment of a machine of `autodeploy`, as `serve-turn` reads it.
use turnfly.Prelude.{◌≡◌, refl, ap, ◌∙◌, true, false, Option, none, some, List, [], arith}
use turnfly.Int.{pos}
use turnfly.Text.{Bytes, codes, is_empty, beq}
use turnfly.Result.{ok}
use turnfly.Map
use turnfly.Map.{Map}
use turnfly.Config.{Config, default_config, load_from_env, env_text, env_port, is_level}
use turnfly.Config.Validation.{IsValid, validate_iff}
use turnfly.Cli.{parse_env_flags}
use turnfly.Cli.Flags.{first_invalid, last_value, Parsed, parse_env_flags_lem}
use turnfly.Cli.Planning.{autodeploy_env}
use turnfly.Cli.Planning.Environment.{autodeploy_env-get}
use turnfly.Cli.ServeTurn.{ServeFlags, serve_config, serve_turn, start_valid, run_serve_turn}

-- The variables of a machine: those of its configuration over those of the platform.
pub machine_env : Map Bytes → (Bytes → Bytes) → Bytes → Bytes
machine_env env platform name = elim (Map.get env name) [ none ↦ platform name | some v ↦ v ]

-- The image runs `serve-turn` without flags.
abbrev pub no_flags : ServeFlags
no_flags = record { turn_port = none; http_port = none; metrics_addr = none; log_level = none }

-- Neither the `--env` flags nor the platform set the variable.
pub record IsUnset (env_vars : List Bytes) (platform : Bytes → Bytes) (key : Bytes) : Type 0 where
  pub no_flag : last_value key none env_vars ≡ none
  pub no_platform : platform key ≡ []

pub given_value :
    (env_vars : List Bytes) (given : Map Bytes) (key : Bytes)
    → parse_env_flags env_vars ≡ ok given
    → Map.get given key ≡ last_value key none env_vars
given_value env_vars given key h =
    by_first (first_invalid env_vars) (parse_env_flags_lem env_vars).0
  where
    by_first :
        (o : Option Bytes) → Parsed env_vars o → Map.get given key ≡ last_value key none env_vars
    by_first (some bad) e = absurd (ground (arith, h, e))
    by_first none (m, e, one, found) = ap (λ x. Map.get x key) (ground (arith, h, e)) ∙ found key

pub machine_env-some :
    (env : Map Bytes) (platform : Bytes → Bytes) (key v : Bytes)
    → Map.get env key ≡ some v
    → machine_env env platform key ≡ v
unfolding machine_env
machine_env-some env platform key v h = rw (h, machine_env) refl

pub machine_env-none :
    (env : Map Bytes) (platform : Bytes → Bytes) (key : Bytes)
    → Map.get env key ≡ none
    → platform key ≡ []
    → machine_env env platform key ≡ []
unfolding machine_env
machine_env-none env platform key h e = rw (h, machine_env) e

-- What `serve-turn` reads there.
module _ (given : Map Bytes) (realm secret token app : Bytes) where
  abbrev pub env : Map Bytes
  env = autodeploy_env given realm secret token app

  pub env-realm : Map.get env (codes "TURN_REALM") ≡ some realm
  unfolding beq
  env-realm = autodeploy_env-get given realm secret token app (codes "TURN_REALM")

  pub env-secret : Map.get env (codes "TURN_SHARED_SECRET") ≡ some secret
  unfolding beq
  env-secret = autodeploy_env-get given realm secret token app (codes "TURN_SHARED_SECRET")

  pub env-token : Map.get env (codes "ADMIN_API_TOKEN") ≡ some token
  unfolding beq
  env-token = autodeploy_env-get given realm secret token app (codes "ADMIN_API_TOKEN")

  pub env-turn_port : Map.get env (codes "TURN_PORT") ≡ Map.get given (codes "TURN_PORT")
  unfolding beq
  env-turn_port = autodeploy_env-get given realm secret token app (codes "TURN_PORT")

  pub env-http_port : Map.get env (codes "HTTP_PORT") ≡ Map.get given (codes "HTTP_PORT")
  unfolding beq
  env-http_port = autodeploy_env-get given realm secret token app (codes "HTTP_PORT")

  pub env-log_level : Map.get env (codes "LOG_LEVEL") ≡ Map.get given (codes "LOG_LEVEL")
  unfolding beq
  env-log_level = autodeploy_env-get given realm secret token app (codes "LOG_LEVEL")

env_text-set : (v old : Bytes) → is_empty v ≡ false → env_text v old ≡ v
unfolding env_text
env_text-set v old h = ground (arith, h)

-- An environment with the three texts and without the other three variables.
pub record Reads (getenv : Bytes → Bytes) (realm secret token : Bytes) : Type 0 where
  pub realm_is : getenv (codes "TURN_REALM") ≡ realm
  pub secret_is : getenv (codes "TURN_SHARED_SECRET") ≡ secret
  pub token_is : getenv (codes "ADMIN_API_TOKEN") ≡ token
  pub has_realm : is_empty realm ≡ false
  pub has_secret : is_empty secret ≡ false
  pub has_token : is_empty token ≡ false
  pub no_turn_port : getenv (codes "TURN_PORT") ≡ []
  pub no_http_port : getenv (codes "HTTP_PORT") ≡ []
  pub no_log_level : getenv (codes "LOG_LEVEL") ≡ []

-- Its configuration.
module _ {getenv : Bytes → Bytes} {realm secret token : Bytes}
    (env : Reads getenv realm secret token) where
  open env use {
    realm_is, secret_is, token_is, has_realm, has_secret, has_token, no_turn_port, no_http_port,
    no_log_level,
  }

  abbrev pub started : Config
  started = serve_config getenv no_flags

  pub started-realm : started.turn_realm ≡ realm
  unfolding serve_config load_from_env default_config
  started-realm = ap (λ v. env_text v []) realm_is ∙ env_text-set realm [] has_realm

  pub started-secret : started.turn_shared_secret ≡ secret
  unfolding serve_config load_from_env default_config
  started-secret = ap (λ v. env_text v []) secret_is ∙ env_text-set secret [] has_secret

  pub started-token : started.admin_api_token ≡ token
  unfolding serve_config load_from_env default_config
  started-token = ap (λ v. env_text v []) token_is ∙ env_text-set token [] has_token

  pub started-turn_port : started.turn_port ≡ pos 3478
  unfolding serve_config load_from_env default_config env_port
  started-turn_port = ap (λ v. env_port v (pos 3478)) no_turn_port

  pub started-http_port : started.http_port ≡ pos 8080
  unfolding serve_config load_from_env default_config env_port
  started-http_port = ap (λ v. env_port v (pos 8080)) no_http_port

  started-log_level : started.log_level ≡ codes "info"
  unfolding serve_config load_from_env default_config env_text
  started-log_level = ap (λ v. env_text v (codes "info")) no_log_level

  info_level : is_level (codes "info") ≡ true
  unfolding is_level beq
  info_level = refl

  started-IsValid : IsValid started
  started-IsValid = record {
    realm = ap is_empty started-realm ∙ has_realm;
    secret = ap is_empty started-secret ∙ has_secret;
    token = ap is_empty started-token ∙ has_token;
    turn_port = ground (arith, started-turn_port);
    http_port = ground (arith, started-http_port);
    level = ap is_level started-log_level ∙ info_level;
    ports_differ = λ e. ground (arith, e, started-turn_port, started-http_port);
  }

  pub started-serve_turn :
      serve_turn getenv no_flags ≡ ok (run_serve_turn started (getenv (codes "FLY_REGION")))
  unfolding serve_turn start_valid
  started-serve_turn = rw ((validate_iff started).1 started-IsValid, start_valid) refl
