-- ===== src/Cli/ServeTurn.antt =====
-- cmd/turnfly/main.go: `serve-turn`, from its flags to the services that it starts.
pub mod Started
pub mod Issuing
pub mod Group
use turnfly.Prelude.{ℕ, ◌*◌, ltb, Option, none, some, List, [], ◌∷◌, ◌++◌, if◌then◌else◌}
use turnfly.Int.{ℤ, pos}
use turnfly.Text.{Bytes, codes, is_empty}
use turnfly.Text.Decimal.{format_int}
use turnfly.Result.{Result, ok, err}
use turnfly.Clock.{hour}
use turnfly.Map
use turnfly.Config.{Config, ConfigError, default_config, load_from_env, validate}
use turnfly.Health.{Status, healthy, degraded, Checker, Service, new_service, register}
use turnfly.Regions.{Store, new_store, set, count}
use turnfly.Regions.WellKnown.{well_known_regions}
use turnfly.ControlApi.Types.{Server}
use turnfly.ControlApi.Middleware.{new_server}
use turnfly.TurnServer.{TurnConfig}
use turnfly.Cli.{CliError, invalid_configuration}

-- The flags of the command that are set (`Changed`).
pub record ServeFlags : Type 0 where
  pub turn_port : Option ℤ
  pub http_port : Option ℤ
  pub metrics_addr : Option Bytes
  pub log_level : Option Bytes

abbrev pub flag_or {ℓ} : {A : Type ℓ} → Option A → A → A
flag_or none old = old
flag_or (some v) old = v

-- The flags over the environment over the defaults.
unfoldable pub serve_config : (Bytes → Bytes) → ServeFlags → Config
serve_config getenv flags =
    let cfg = load_from_env getenv default_config in
    record cfg {
      turn_port = flag_or flags.turn_port cfg.turn_port;
      http_port = flag_or flags.http_port cfg.http_port;
      metrics_addr = flag_or flags.metrics_addr cfg.metrics_addr;
      log_level = flag_or flags.log_level cfg.log_level;
    }

-- What `runServeTurn` starts. The checks read the region store.
pub record Services : Type 0 where
  pub turn : TurnConfig
  pub store : Store
  pub api : Server Store
  pub http_addr : Bytes

-- The region of the process, if it runs on Fly. A map without the key gives the empty name.
pub local_regions : Config → Bytes → Store
local_regions cfg fly_region =
    if is_empty cfg.fly_app_name
    then new_store
    else if is_empty fly_region
    then new_store
    else set new_store (record {
      code = fly_region;
      name = elim (Map.get well_known_regions fly_region) [ none ↦ [] | some name ↦ name ];
      host = [];
      port = cfg.turn_port;
      tls_port = pos 0;
    })

-- The two checks of the health service. The dash of the message is three bytes.
pub startup_check : Checker Store
startup_check store = (healthy, codes "service is running")

pub regions_check : Checker Store
regions_check store =
    if ltb 0 (count store)
    then (healthy, format_int (pos (count store)) ++ codes " region(s) registered")
    else (
      degraded,
      codes "no regions registered " ++ (226 ∷ 128 ∷ 148 ∷ codes " multi-region mode inactive"),
    )

pub health_checks : Service Store
health_checks =
    register (register new_service (codes "startup") startup_check) (codes "regions") regions_check

-- `runServeTurn` up to the start of its goroutines.
unfoldable pub run_serve_turn : Config → Bytes → Services
run_serve_turn cfg fly_region = record {
  turn = record {
    listen_addr = codes "0.0.0.0:" ++ format_int cfg.turn_port;
    realm = cfg.turn_realm;
    shared_secret = cfg.turn_shared_secret;
  };
  store = local_regions cfg fly_region;
  api =
      new_server cfg.turn_shared_secret cfg.admin_api_token (pos (24 * hour)) health_checks
        (some (local_regions cfg fly_region));
  http_addr = (58 ∷ []) ++ format_int cfg.http_port;
}

-- The command behind the validation of its configuration.
unfoldable pub start_valid : Config → Bytes → List ConfigError → Result CliError Services
start_valid cfg fly_region (e ∷ es) = err (invalid_configuration (e ∷ es))
start_valid cfg fly_region [] = ok (run_serve_turn cfg fly_region)

-- The command, up to the start of the goroutines.
unfoldable pub serve_turn : (Bytes → Bytes) → ServeFlags → Result CliError Services
unfolding start_valid
serve_turn getenv flags =
    let cfg = serve_config getenv flags in
    start_valid cfg (getenv (codes "FLY_REGION")) (validate cfg)

-- What one of the goroutines returned: the errors that end the command without an error, or
-- another one.
pub data GroupError : Type 0 where
  cancelled : GroupError
  server_closed : GroupError
  failed : Bytes → GroupError

-- What `runServeTurn` makes of the first error of the group.
pub group_result : Option GroupError → Option Bytes
group_result (some (failed message)) = some message
group_result e = none
