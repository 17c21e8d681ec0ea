-- ===== src/Cli/Planning.antt =====
-- cmd/turnfly/main.go: the flags and the settings of `autodeploy`, `deploy`, `destroy` and
-- `image push`, and what the first two hand to the deployer.
pub mod Environment
pub mod Machine
pub mod Starts
mod Tests
use turnfly.Prelude.{Bool, not, ◌&&◌, some, List, ◌++◌, if◌then◌else◌}
use turnfly.Int.{pos}
use turnfly.Text.{Bytes, codes, is_empty}
use turnfly.Text.Strings.{equal_fold}
use turnfly.Result.{Result, ok, ◌>>=◌, ◌>>◌, fail_if}
use turnfly.Map
use turnfly.Map.{Map}
use turnfly.Config.{Config}
use turnfly.FlyDeploy.Types.{MachineGuest}
use turnfly.FlyDeploy.Plan.{DeployConfig}
use turnfly.Cli.{
  CliError, required, parse_region_list, parse_env_flags, generate_secret, registry_image,
}

-- The flags of `autodeploy`; `deploy`, `destroy` and `image push` have some of them.
pub record DeployFlags : Type 0 where
  pub app_name : Bytes
  pub org_slug : Bytes
  pub regions : Bytes
  pub image : Bytes
  pub tag : Bytes
  pub context_dir : Bytes
  pub dockerfile : Bytes
  pub docker_host : Bytes
  pub dry_run : Bool
  pub skip_image : Bool
  pub turn_realm : Bytes
  pub shared_secret : Bytes
  pub admin_token : Bytes
  pub env_vars : List Bytes

-- `if s == "" { s = t }`
abbrev pub or_else : Bytes → Bytes → Bytes
or_else s t = if is_empty s then t else s

-- The environment and the flags of the app and its organization.
unfoldable pub with_app_flags : Config → Bytes → Bytes → Config
with_app_flags cfg app org = record cfg {
  fly_app_name = or_else app cfg.fly_app_name;
  fly_org = or_else org cfg.fly_org;
}

-- `if s == "" { s, err = generateSecret(32) }`
abbrev pub or_generate : Bytes → Result Bytes Bytes → Result CliError Bytes
or_generate s draw = if is_empty s then generate_secret draw else ok s

-- `DefaultGuest`
pub default_guest : MachineGuest
default_guest = record { cpu_kind = codes "shared"; cpus = pos 1; memory_mb = pos 256 }

-- The configuration that both commands hand to the deployer.
pub deploy_config : Config → List Bytes → Bytes → Map Bytes → DeployConfig
deploy_config cfg regions image env = record {
  app_name = cfg.fly_app_name;
  org_slug = cfg.fly_org;
  regions = regions;
  image = image;
  env = some env;
  machine_name = codes "turnfly";
  guest = default_guest;
  health_port = pos 0;
  health_timeout = pos 0;
}

-- The variables that `autodeploy` sets behind those of the `--env` flags.
pub autodeploy_env : Map Bytes → Bytes → Bytes → Bytes → Bytes → Map Bytes
autodeploy_env env realm secret token app =
    Map.put
      (Map.put
        (Map.put (Map.put env (codes "TURN_REALM") realm) (codes "TURN_SHARED_SECRET") secret)
        (codes "ADMIN_API_TOKEN") token)
      (codes "FLY_APP_NAME") app

-- The three settings that both commands need, in the order of their checks.
unfoldable pub check_settings : Config → Result CliError (Unit {0})
check_settings cfg = do
  fail_if (is_empty cfg.fly_api_token) (required (codes "FLY_API_TOKEN"))
  fail_if (is_empty cfg.fly_app_name) (required (codes "--app"))
  fail_if (is_empty cfg.fly_org) (required (codes "--org"))

-- The two settings that `destroy` needs.
unfoldable pub check_app : Config → Result CliError (Unit {0})
check_app cfg = do
  fail_if (is_empty cfg.fly_api_token) (required (codes "FLY_API_TOKEN"))
  fail_if (is_empty cfg.fly_app_name) (required (codes "--app"))

-- Without `--yes`, an answer other than y and yes, in any case, aborts.
unfoldable pub is_aborted : Bool → Bytes → Bool
is_aborted yes_flag response =
    not yes_flag
    && (not (equal_fold response (codes "y")) && not (equal_fold response (codes "yes")))

-- `autodeploy` up to its first effect. `timestamp` is the time of the default tag; `draw_secret`
-- and `draw_token` are what `rand.Read` gives for the two secrets.
unfoldable pub plan_autodeploy :
    Config
    → DeployFlags
    → Bytes
    → Result Bytes Bytes
    → Result Bytes Bytes
    → Result CliError DeployConfig
unfolding check_settings
plan_autodeploy cfg flags timestamp draw_secret draw_token = do
  check_settings cfg
  regions ← parse_region_list flags.regions
  let image = or_else flags.image (registry_image cfg.fly_app_name (or_else flags.tag timestamp))
  env ← parse_env_flags flags.env_vars
  let realm =
      or_else (or_else flags.turn_realm cfg.turn_realm) (cfg.fly_app_name ++ codes ".fly.dev")
  secret ← or_generate (or_else flags.shared_secret cfg.turn_shared_secret) draw_secret
  token ← or_generate (or_else flags.admin_token cfg.admin_api_token) draw_token
  ok (deploy_config cfg regions image (autodeploy_env env realm secret token cfg.fly_app_name))

-- `deploy` up to its first effect.
pub plan_deploy : Config → DeployFlags → Result CliError DeployConfig
unfolding check_settings
plan_deploy cfg flags = do
  check_settings cfg
  fail_if (is_empty flags.image) (required (codes "--image"))
  regions ← parse_region_list flags.regions
  env ← parse_env_flags flags.env_vars
  ok (deploy_config cfg regions flags.image env)

-- The settings that `image push` needs.
pub check_image : Config → DeployFlags → Result CliError (Unit {0})
check_image cfg flags = do
  fail_if (is_empty cfg.fly_api_token) (required (codes "FLY_API_TOKEN"))
  fail_if (is_empty flags.image && is_empty cfg.fly_app_name) (required (codes "--app"))
