-- ===== src/Cli/Defaults.antt =====
-- cmd/turnfly/main.go: the values of the flags that a command line leaves out, and the exit code.
use turnfly.Prelude.{ℕ, Bool, false, none, [], if◌then◌else◌}
use turnfly.Int.{ℤ, pos}
use turnfly.Text.{Bytes, codes, beq}
use turnfly.Result.{Result, ok, err}
use turnfly.Cli.{CliError}
use turnfly.Cli.ServeTurn.{ServeFlags}
use turnfly.Cli.ServeRelay.{RelayFlags}
use turnfly.Cli.Planning.{DeployFlags}

-- `serve-turn` looks only at the flags that are set.
pub serve_turn_flags : ServeFlags
serve_turn_flags = record {
  turn_port = none;
  http_port = none;
  metrics_addr = none;
  log_level = none;
}

pub serve_relay_flags : RelayFlags
serve_relay_flags = record {
  listen_addr = codes ":4443";
  peer_addr = [];
  server = false;
  cert_file = [];
  key_file = [];
}

-- A command of the deployment that has none of the flags.
abbrev no_deploy_flags : DeployFlags
no_deploy_flags = record {
  app_name = [];
  org_slug = [];
  regions = [];
  image = [];
  tag = [];
  context_dir = [];
  dockerfile = [];
  docker_host = [];
  dry_run = false;
  skip_image = false;
  turn_realm = [];
  shared_secret = [];
  admin_token = [];
  env_vars = [];
}

pub autodeploy_flags : DeployFlags
autodeploy_flags = record no_deploy_flags {
  regions = codes "iad";
  context_dir = codes ".";
  dockerfile = codes "Dockerfile";
}

pub deploy_flags : DeployFlags
deploy_flags = no_deploy_flags

pub image_push_flags : DeployFlags
image_push_flags = record no_deploy_flags {
  tag = codes "latest";
  context_dir = codes ".";
  dockerfile = codes "Dockerfile";
}

-- The flags of `destroy`: those that it shares, and `--yes`.
pub destroy_flags : DeployFlags × Bool
destroy_flags = (no_deploy_flags, false)

pub record IceFlags : Type 0 where
  pub user_id : Bytes
  pub use_tls : Bool
  pub regions : Bytes
  pub shared_secret : Bytes

pub ice_config_flags : IceFlags
ice_config_flags = record {
  user_id = codes "default";
  use_tls = false;
  regions = [];
  shared_secret = [];
}

pub record ProbeFlags : Type 0 where
  pub from_region : Bytes
  pub to_region : Bytes
  pub duration : ℤ
  pub packet_size : ℤ
  pub bitrate : ℤ
  pub count : ℤ

pub probe_flags : ProbeFlags
probe_flags = record {
  from_region = [];
  to_region = [];
  duration = pos 0;
  packet_size = pos 1200;
  bitrate = pos 0;
  count = pos 10;
}

-- `main`: a command that fails ends the process with 1.
pub exit_code : {A : Type 0} → Result CliError A → ℕ
exit_code (ok a) = 0
exit_code (err e) = 1

-- The level of `setupLogger`; a name that it does not know is info.
pub data Level : Type 0 where
  debug info warn error : Level

pub setup_logger : Bytes → Level
setup_logger name =
    if beq name (codes "debug")
    then debug
    else if beq name (codes "warn")
    then warn
    else if beq name (codes "error")
    then error
    else info
