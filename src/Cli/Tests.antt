-- ===== src/Cli/Tests.antt =====
-- The commands at concrete flags.
use mathlib.Core.List.{reverse}
use turnfly.Prelude.{
  map, ◌++◌, if◌then◌else◌, ◌↔◌, ◌≡◌, refl, true, false, none, some, [], ◌∷◌, List,
}
use turnfly.Int.{pos}
use turnfly.Text.{Bytes, codes, beq}
use turnfly.Text.Strings
use turnfly.Result.{Result, ok, err}
use turnfly.Map
use turnfly.Config.{
  Config, default_config, load_from_env, validate, env_text, env_port, split_commas,
}
use turnfly.FlyDeploy.Plan.{DeployConfig}
use turnfly.FlyDeploy.Tests.{small_world, never_equal, two_machines}
use turnfly.FlyDeploy.Transport.{
  Client, sent, new_client, request_of, method_get, machines_path, no_body, do_request, read_reply,
}
use turnfly.FlyDeploy.Client.{list_machines}
use turnfly.FlyDeploy.Destroying.{deletion}
use turnfly.Cli.Deploying.Confirmed.{destroy_command_lem}
use turnfly.Text.Strings.{equal_fold}
use turnfly.ContainerImage.{EngineCall, EngineReply, answered}
use turnfly.Cli.{parse_region_list, parse_env_flags, parse_assignment, registry_image}
use turnfly.Cli.Flags.{Assigns, first_invalid, Parsed, parse_env_flags_lem}
use turnfly.Cli.RegionList.{RegionsOf, parse_region_list_lem}
use turnfly.Cli.ServeTurn.{ServeFlags, serve_config, serve_turn, run_serve_turn, start_valid}
use turnfly.Cli.ServeTurn.Started.{FollowsFlags, Serves, serve_turn_lem}
use turnfly.Cli.Planning.{
  DeployFlags, with_app_flags, plan_autodeploy, check_app, is_aborted, deploy_config,
  autodeploy_env,
}
use turnfly.Cli.Deploying.{Services, Outside, autodeploy, deploy_command, destroy_command}
use turnfly.Cli.Deploying.Untouched.{dry_commands}
use turnfly.Cli.Deploying.Ordering.{Deploys, autodeploy-Deploys}

parse_env_flags_lem_example :
    Parsed
      (codes "A=1" ∷ codes "B=x=y" ∷ codes "A=2" ∷ [])
      (first_invalid (codes "A=1" ∷ codes "B=x=y" ∷ codes "A=2" ∷ []))
    × ((e k v : Bytes) → (parse_assignment e ≡ some (k, v)) ↔ Assigns e k v)
parse_env_flags_lem_example = parse_env_flags_lem (codes "A=1" ∷ codes "B=x=y" ∷ codes "A=2" ∷ [])

two_regions : RegionsOf (codes "iad, ord,,") (parse_region_list (codes "iad, ord,,"))
two_regions = parse_region_list_lem (codes "iad, ord,,")

abbrev variables : List (Bytes × Bytes)
variables =
    (codes "TURN_REALM", codes "r")
    ∷ (codes "TURN_SHARED_SECRET", codes "s")
    ∷ (codes "ADMIN_API_TOKEN", codes "a")
    ∷ (codes "FLY_APP_NAME", codes "turn")
    ∷ (codes "FLY_API_TOKEN", codes "t")
    ∷ (codes "FLY_ORG", codes "personal")
    ∷ (codes "FLY_REGION", codes "iad")
    ∷ []

abbrev value_of : Bytes → List (Bytes × Bytes) → Bytes
value_of name [] = []
value_of name ((k, v) ∷ vs) = elim (beq k name) [ true ↦ v | false ↦ value_of name vs ]

abbrev pub environment : Bytes → Bytes
environment name = value_of name variables

abbrev pub serve_flags : ServeFlags
serve_flags = record {
  turn_port = some (pos 5000);
  http_port = none;
  metrics_addr = none;
  log_level = none;
}

pub starts :
    serve_turn environment serve_flags
    ≡ ok (run_serve_turn (serve_config environment serve_flags) (codes "iad"))
unfolding serve_turn start_valid serve_config validate load_from_env default_config beq env_text
    env_port
starts = refl

serve_turn_lem_example :
    FollowsFlags environment serve_flags (serve_config environment serve_flags)
    × Serves
        (serve_config environment serve_flags)
        (environment (codes "FLY_REGION"))
        (run_serve_turn (serve_config environment serve_flags) (codes "iad"))
serve_turn_lem_example =
    serve_turn_lem environment serve_flags
      (run_serve_turn (serve_config environment serve_flags) (codes "iad")) starts

abbrev pub loaded : Config
loaded = record {
  turn_port = pos 3478;
  turn_realm = [];
  turn_shared_secret = codes "s";
  http_port = pos 8080;
  admin_api_token = codes "a";
  metrics_addr = codes ":9090";
  fly_app_name = codes "turn";
  fly_org = codes "personal";
  fly_api_token = codes "t";
  relay_mode = false;
  relay_peers = [];
  log_level = codes "info";
}

abbrev pub flags : DeployFlags
flags = record {
  app_name = [];
  org_slug = [];
  regions = codes "iad";
  image = [];
  tag = codes "v1";
  context_dir = codes ".";
  dockerfile = codes "Dockerfile";
  docker_host = [];
  dry_run = false;
  skip_image = false;
  turn_realm = [];
  shared_secret = [];
  admin_token = [];
  env_vars = codes "A=1" ∷ [];
}

-- An engine that builds and pushes everything.
abbrev engine : List EngineCall → EngineCall → EngineReply
engine before call = answered 200 (codes "{}" ∷ []) none

abbrev services : Services
services = record {
  world = small_world;
  deep_equal = never_equal;
  decode_message = λ line. none;
  engine = engine;
  tar_context = λ dir. some [];
  auth_header = λ token. token;
  docker_host_env = [];
}

abbrev idle : Outside
idle = record { fly = []; docker = record { calls = []; output = [] } }

abbrev pub no_draw : Result Bytes Bytes
no_draw = err (codes "no entropy")

abbrev pub plan : DeployConfig
plan = deploy_config loaded (codes "iad" ∷ []) (registry_image (codes "turn") (codes "v1")) (
    autodeploy_env (Map.put Map.empty (codes "A") (codes "1")) (codes "turn.fly.dev") (codes "s")
      (codes "a") (codes "turn"))

pub planned :
    plan_autodeploy (with_app_flags loaded [] []) flags (codes "20240101-000000") no_draw no_draw
    ≡ ok plan
unfolding plan_autodeploy with_app_flags parse_region_list parse_env_flags parse_assignment
    split_commas Strings.trim_space Strings.trim_left Strings.trim_right
planned = refl

autodeploy-Deploys_example :
    Deploys services
      (with_app_flags loaded [] [])
      flags
      plan
      idle
      refl
      refl
      (autodeploy services loaded flags (codes "20240101-000000") no_draw no_draw idle)
autodeploy-Deploys_example =
    autodeploy-Deploys services loaded flags (codes "20240101-000000") no_draw no_draw plan idle
      refl refl planned

dry_commands_example :
    let dry = record flags { dry_run = true } in
    ((autodeploy services loaded dry (codes "20240101-000000") no_draw no_draw idle).0 ≡ idle)
    × ((deploy_command services loaded dry idle).0 ≡ idle)
    × ((destroy_command services loaded dry false (codes "Yes") idle).0 ≡ idle)
dry_commands_example =
    dry_commands services loaded (record flags { dry_run = true }) (codes "20240101-000000")
      (codes "Yes") false no_draw no_draw idle refl

abbrev destroyed_app : Config
destroyed_app = with_app_flags loaded [] []

abbrev fly_client : Client
fly_client = new_client destroyed_app.fly_api_token false

settings_given : check_app destroyed_app ≡ ok tt
unfolding check_app with_app_flags beq
settings_given = refl

listed_machines : list_machines small_world fly_client destroyed_app.fly_app_name [] ≡ (
  sent (request_of fly_client method_get (machines_path destroyed_app.fly_app_name) no_body) ∷ [],
  ok two_machines,
)
unfolding list_machines read_reply do_request new_client
listed_machines = refl

destroy_command_lem_example : destroy_command services loaded flags false (codes "Yes") idle ≡ (
    if is_aborted false (codes "Yes") then (idle, ok false) else (
      record idle {
        fly =
            reverse (map (deletion fly_client destroyed_app.fly_app_name) two_machines)
            ++ (sent (
                  request_of fly_client method_get
                    (machines_path destroyed_app.fly_app_name)
                    no_body)
                ∷ []);
      },
      ok true,
    ))
destroy_command_lem_example =
    destroy_command_lem services loaded flags false (codes "Yes") two_machines
      (sent (request_of fly_client method_get (machines_path destroyed_app.fly_app_name) no_body)
        ∷ [])
      idle refl settings_given listed_machines

confirmed : is_aborted false (codes "Yes") ≡ false
unfolding is_aborted equal_fold beq
confirmed = refl
