-- ===== src/Cli/ServeTurn/Started.antt =====
-- What the services that `serve-turn` starts answer.
use turnfly.Prelude.{
  Option, none, ◌++◌, ◌≡◌, refl, subst, Bool, true, false, some, List, [], ◌∷◌, arith,
  if◌then◌else◌,
}
use turnfly.Text.{Bytes, codes, is_empty, beq}
use turnfly.Result.{Result, ok}
use turnfly.Map
use turnfly.Health.{healthy, degraded, get_status, run_checks, check_loop, register, new_service}
use turnfly.Regions.{new_store, set, count, generate_multi_region_uris, region_uri}
use turnfly.Auth.{format_turn_server_url}
use turnfly.Int.{pos}
use turnfly.Text.Decimal.{format_int}
use turnfly.Config.{
  Config, ConfigError, validate, env_text, env_port, env_flag, env_list, load_from_env,
  default_config,
}
use turnfly.Config.Validation.{IsValid, validate_iff}
use turnfly.ControlApi.Handlers.{uris_of}
use turnfly.Cli.{CliError}
use turnfly.Cli.ServeTurn.{
  ServeFlags, flag_or, serve_config, Services, local_regions, startup_check, regions_check,
  health_checks, run_serve_turn, start_valid, serve_turn,
}

ok_injective : {s t : Services} → (let r : Result CliError Services = ok s in r) ≡ ok t → s ≡ t
ok_injective h = cc

-- On Fly, in a region that is known.
abbrev pub is_on_fly : Config → Bytes → Bool
is_on_fly cfg fly_region =
    if is_empty cfg.fly_app_name then false else if is_empty fly_region then false else true

count-local_regions :
    (cfg : Config) (fly_region : Bytes)
    → count (local_regions cfg fly_region) ≡ (if is_on_fly cfg fly_region then 1 else 0)
unfolding local_regions count new_store set Map.size Map.put Map.empty
count-local_regions cfg fly_region = ground arith

local_uris :
    (cfg : Config) (fly_region username password : Bytes)
    → uris_of (some (local_regions cfg fly_region)) username password ≡ (
        if is_on_fly cfg fly_region
        then format_turn_server_url [] cfg.turn_port username password false ∷ []
        else [])
unfolding local_regions count new_store set Map.size Map.put Map.empty Map.values
    generate_multi_region_uris region_uri format_turn_server_url
local_uris cfg fly_region username password = ground arith

local_status :
    (cfg : Config) (fly_region : Bytes)
    → get_status (run_checks (local_regions cfg fly_region) health_checks).0
      ≡ (if is_on_fly cfg fly_region then healthy else degraded)
unfolding health_checks run_checks check_loop register new_service Map.put Map.empty startup_check
    regions_check get_status beq
local_status cfg fly_region = ground (arith, count-local_regions cfg fly_region)

-- The value of a setting with a flag: the flag, if it is given, over what the environment makes of
-- the default.
abbrev pub setting : {A : Type 0} → Option A → A → A
setting flag from_env = elim flag [ none ↦ from_env | some v ↦ v ]

-- The settings of `serve-turn`: flags over the environment over the defaults.
pub record FollowsFlags (getenv : Bytes → Bytes) (flags : ServeFlags) (cfg : Config) : Type 0 where
  pub turn_port :
      cfg.turn_port ≡ setting flags.turn_port (env_port (getenv (codes "TURN_PORT")) (pos 3478))
  pub http_port :
      cfg.http_port ≡ setting flags.http_port (env_port (getenv (codes "HTTP_PORT")) (pos 8080))
  pub metrics_addr :
      cfg.metrics_addr
      ≡ setting flags.metrics_addr (env_text (getenv (codes "METRICS_ADDR")) (codes ":9090"))
  pub log_level :
      cfg.log_level ≡ setting flags.log_level (env_text (getenv (codes "LOG_LEVEL")) (codes "info"))
  pub realm : cfg.turn_realm ≡ getenv (codes "TURN_REALM")
  pub secret : cfg.turn_shared_secret ≡ getenv (codes "TURN_SHARED_SECRET")
  pub token : cfg.admin_api_token ≡ getenv (codes "ADMIN_API_TOKEN")
  pub app : cfg.fly_app_name ≡ getenv (codes "FLY_APP_NAME")
  pub org : cfg.fly_org ≡ getenv (codes "FLY_ORG")
  pub api_token : cfg.fly_api_token ≡ getenv (codes "FLY_API_TOKEN")
  pub relay_mode : cfg.relay_mode ≡ env_flag (getenv (codes "RELAY_MODE")) false
  pub relay_peers : cfg.relay_peers ≡ env_list (getenv (codes "RELAY_PEERS")) []

-- What the services take from their configuration.
pub record Uses (cfg : Config) (s : Services) : Type 0 where
  pub turn_addr : s.turn.listen_addr ≡ codes "0.0.0.0:" ++ format_int cfg.turn_port
  pub realm : s.turn.realm ≡ cfg.turn_realm
  pub turn_secret : s.turn.shared_secret ≡ cfg.turn_shared_secret
  pub api_secret : s.api.shared_secret ≡ cfg.turn_shared_secret
  pub token : s.api.admin_token ≡ cfg.admin_api_token
  pub http_addr : s.http_addr ≡ (b':' ∷ format_int cfg.http_port)

env_text-empty : (v : Bytes) → env_text v [] ≡ v
unfolding env_text
env_text-empty [] = refl
env_text-empty (c ∷ v) = refl

serve_config-FollowsFlags :
    (getenv : Bytes → Bytes) (flags : ServeFlags)
    → FollowsFlags getenv flags (serve_config getenv flags)
unfolding serve_config load_from_env default_config
serve_config-FollowsFlags getenv flags = record {
  turn_port = flag_or-setting flags.turn_port (env_port (getenv (codes "TURN_PORT")) (pos 3478));
  http_port = flag_or-setting flags.http_port (env_port (getenv (codes "HTTP_PORT")) (pos 8080));
  metrics_addr =
      flag_or-setting flags.metrics_addr (env_text (getenv (codes "METRICS_ADDR")) (codes ":9090"));
  log_level =
      flag_or-setting flags.log_level (env_text (getenv (codes "LOG_LEVEL")) (codes "info"));
  realm = env_text-empty (getenv (codes "TURN_REALM"));
  secret = env_text-empty (getenv (codes "TURN_SHARED_SECRET"));
  token = env_text-empty (getenv (codes "ADMIN_API_TOKEN"));
  app = env_text-empty (getenv (codes "FLY_APP_NAME"));
  org = env_text-empty (getenv (codes "FLY_ORG"));
  api_token = env_text-empty (getenv (codes "FLY_API_TOKEN"));
  relay_mode = refl;
  relay_peers = refl;
}
  where
    flag_or-setting : {A : Type 0} (o : Option A) (v : A) → flag_or o v ≡ setting o v
    flag_or-setting none v = refl
    flag_or-setting (some w) v = refl

-- What holds of services that were started with a configuration.
abbrev pub Serves : Config → Bytes → Services → Type 0
Serves cfg fly_region s =
    IsValid cfg
    × Uses cfg s
    × (get_status (run_checks s.store s.api.health_service).0
        ≡ (if is_on_fly cfg fly_region then healthy else degraded))
    × ((username password : Bytes)
        → uris_of s.api.region_store username password ≡ (
            if is_on_fly cfg fly_region
            then format_turn_server_url [] cfg.turn_port username password false ∷ []
            else []))

start_valid_lem :
    (cfg : Config) (fly_region : Bytes) (errors : List ConfigError) (s : Services)
    → validate cfg ≡ errors
    → start_valid cfg fly_region errors ≡ ok s
    → Serves cfg fly_region s
unfolding start_valid run_serve_turn
start_valid_lem cfg fly_region (e ∷ es) s v h = absurd (ground (arith, h))
start_valid_lem cfg fly_region [] s v h = subst (Serves cfg fly_region) (ok_injective h) (
  (validate_iff cfg).0 v,
  record {
    turn_addr = refl;
    realm = refl;
    turn_secret = refl;
    api_secret = refl;
    token = refl;
    http_addr = refl;
  },
  local_status cfg fly_region,
  local_uris cfg fly_region,
)

-- If the command starts its services, its configuration has each setting from its flag, over the
-- environment, over the default, and is valid; the TURN server and the control API have their
-- ports, the realm, the secret and the token from it, and so the same secret; the health of the API
-- is healthy on Fly in a known region and degraded elsewhere; and its URIs are one with the TURN
-- port and an empty host there, and none elsewhere.
pub serve_turn_lem :
    (getenv : Bytes → Bytes) (flags : ServeFlags) (s : Services)
    → serve_turn getenv flags ≡ ok s
    → FollowsFlags getenv flags (serve_config getenv flags)
      × Serves (serve_config getenv flags) (getenv (codes "FLY_REGION")) s
unfolding serve_turn
serve_turn_lem getenv flags s h =
    let cfg = serve_config getenv flags in
    (
      serve_config-FollowsFlags getenv flags,
      start_valid_lem cfg (getenv (codes "FLY_REGION")) (validate cfg) s refl h,
    )
