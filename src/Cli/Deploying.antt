-- ===== src/Cli/Deploying.antt =====
-- cmd/turnfly/main.go: `autodeploy`, `deploy` and `destroy`, and `image push`.
pub mod Untouched
pub mod Ordering
pub mod Confirmed
use turnfly.Prelude.{
  Bool, true, false, not, ◌&&◌, ◌||◌, Option, none, some, List, [], ◌∷◌, ◌++◌, if◌then◌else◌,
}
use turnfly.Int.{pos}
use turnfly.Text.{Bytes, codes, is_empty}
use turnfly.Text.Strings.{equal_fold}
use turnfly.Result.{Result, ok, err, ◌>>=◌, ◌>>◌, fail_if}
use turnfly.Map
use turnfly.Map.{Map}
use turnfly.Config.{Config}
use turnfly.FlyDeploy.Types.{FlyError, App, MachineConfig, MachineGuest}
use turnfly.FlyDeploy.Transport.{World, Client, Trace, new_client}
use turnfly.FlyDeploy.Client.{get_app, create_app}
use turnfly.FlyDeploy.Plan.{DeployConfig, DeployResult}
use turnfly.FlyDeploy.Deployer.{deploy, destroy}
use turnfly.ContainerImage.{
  Message, EngineCall, EngineReply, PublishConfig, PublishError, DockerPublisher, Run,
  build_and_push, new_docker_publisher,
}
use turnfly.Cli.Planning.{
  DeployFlags, or_else, with_app_flags, or_generate, default_guest, deploy_config, autodeploy_env,
  check_settings, check_app, is_aborted, plan_autodeploy, plan_deploy, check_image,
}
use turnfly.Cli.{
  CliError, required, ensure_app_failed, no_publisher, publish_failed, deploy_failed,
  destroy_failed, parse_region_list, parse_env_flags, generate_secret, registry_image,
}

-- What a command does to the outside: calls to the Fly API and to the Docker engine.
pub record Outside : Type 0 where
  pub fly : Trace
  pub docker : Run

-- The Fly API and the equality of configurations, the Docker engine and what its publisher uses,
-- and the environment variable DOCKER_HOST.
pub record Services : Type 0 where
  pub world : World
  pub deep_equal : MachineConfig → MachineConfig → Bool
  pub decode_message : Bytes → Option Message
  pub engine : List EngineCall → EngineCall → EngineReply
  pub tar_context : Bytes → Option Bytes
  pub auth_header : Bytes → Bytes
  pub docker_host_env : Bytes

abbrev pub as_error : {E A : Type 0} → (E → CliError) → Result E A → Result CliError A
as_error f (ok a) = ok a
as_error f (err e) = err (f e)

module _ (s : Services) where
  -- `ensureImageApp`
  pub ensure_image_app : Client → Bytes → Bytes → Trace → Trace × Result CliError (Unit {0})
  ensure_image_app c app org t =
      let (t', found) = get_app s.world c app t in
      elim found [
        | ok a ↦ (t', ok tt)
        | err e ↦
            let (t'', created) = create_app s.world c app org t' in
            (t'', elim created [ ok a ↦ ok tt | err e' ↦ err (ensure_app_failed e') ])
      ]

  -- The call of `BuildAndPush` with a new publisher.
  pub publish : PublishConfig → Bytes → Run → Run × Result CliError (Unit {0})
  publish cfg docker_host run = elim (new_docker_publisher s.docker_host_env docker_host) [
    | err e ↦ (run, err (no_publisher e))
    | ok publisher ↦
        let (run', e) =
          build_and_push s.decode_message s.engine s.tar_context s.auth_header cfg run in
        (run', elim e [ none ↦ ok tt | some e' ↦ err (publish_failed e') ])
  ]

  -- The deployer's part of both commands.
  pub deploy_step : Client → DeployConfig → Outside → Outside × Result CliError DeployResult
  deploy_step c cfg o =
      let (t, r) = deploy s.world s.deep_equal c cfg o.fly in
      (record o { fly = t }, as_error deploy_failed r)

  abbrev pub publish_config : Config → DeployFlags → DeployConfig → PublishConfig
  publish_config cfg flags plan = record {
    context_dir = flags.context_dir;
    dockerfile = flags.dockerfile;
    image = plan.image;
    token = cfg.fly_api_token;
  }

  -- `autodeploy` behind the publication of its image.
  pub after_publish :
      Client
      → DeployConfig
      → Outside
      → Run × Result CliError (Unit {0})
      → Outside × Result CliError DeployResult
  after_publish c plan o (run, err e) = (record o { docker = run }, err e)
  after_publish c plan o (run, ok done) = deploy_step c plan (record o { docker = run })

  -- `autodeploy` behind `ensureImageApp`.
  pub publish_and_deploy :
      Config → DeployFlags → DeployConfig → Outside → Outside × Result CliError DeployResult
  unfolding after_publish
  publish_and_deploy cfg flags plan o =
      let c = new_client cfg.fly_api_token flags.dry_run in
      if not flags.dry_run && not flags.skip_image
      then after_publish c plan o
          (publish (publish_config cfg flags plan) flags.docker_host o.docker)
      else deploy_step c plan o

  pub after_ensure :
      Config
      → DeployFlags
      → DeployConfig
      → Outside
      → Trace × Result CliError (Unit {0})
      → Outside × Result CliError DeployResult
  after_ensure cfg flags plan o (t, err e) = (record o { fly = t }, err e)
  after_ensure cfg flags plan o (t, ok done) =
      publish_and_deploy cfg flags plan (record o { fly = t })

  -- `autodeploy` behind its plan.
  pub run_autodeploy :
      Config → DeployFlags → DeployConfig → Outside → Outside × Result CliError DeployResult
  unfolding after_ensure
  run_autodeploy cfg flags plan o =
      if not flags.dry_run
      then after_ensure cfg flags plan o (
          ensure_image_app (new_client cfg.fly_api_token flags.dry_run) cfg.fly_app_name cfg.fly_org
            o.fly)
      else publish_and_deploy cfg flags plan o

  -- The command `autodeploy`, on the loaded configuration.
  pub autodeploy :
      Config
      → DeployFlags
      → Bytes
      → Result Bytes Bytes
      → Result Bytes Bytes
      → Outside
      → Outside × Result CliError DeployResult
  autodeploy loaded flags timestamp draw_secret draw_token o =
      let cfg = with_app_flags loaded flags.app_name flags.org_slug in
      elim (plan_autodeploy cfg flags timestamp draw_secret draw_token) [
        | err e ↦ (o, err e)
        | ok plan ↦ run_autodeploy cfg flags plan o
      ]

  -- The command `deploy`.
  pub deploy_command : Config → DeployFlags → Outside → Outside × Result CliError DeployResult
  deploy_command loaded flags o =
      let cfg = with_app_flags loaded flags.app_name flags.org_slug in
      elim (plan_deploy cfg flags) [
        | err e ↦ (o, err e)
        | ok plan ↦ deploy_step (new_client cfg.fly_api_token flags.dry_run) plan o
      ]

  -- The command `destroy`; `response` is what is typed at its question. Whether it destroyed.
  pub destroy_command :
      Config → DeployFlags → Bool → Bytes → Outside → Outside × Result CliError Bool
  destroy_command loaded flags yes_flag response o =
      let cfg = with_app_flags loaded flags.app_name [] in
      elim (check_app cfg) [
        | err e ↦ (o, err e)
        | ok checked ↦
            if is_aborted yes_flag response
            then (o, ok false)
            else let (t, r) =
                destroy s.world s.deep_equal (new_client cfg.fly_api_token flags.dry_run)
                  cfg.fly_app_name o.fly in
              (record o { fly = t }, elim r [ ok done ↦ ok true | err e ↦ err (destroy_failed e) ])
      ]

  -- The command `image push`.
  pub image_push : Config → DeployFlags → Outside → Outside × Result CliError (Unit {0})
  image_push loaded flags o =
      let cfg = with_app_flags loaded flags.app_name [] in
      elim (check_image cfg flags) [
        | err e ↦ (o, err e)
        | ok checked ↦
            let image =
              or_else flags.image
                (registry_image cfg.fly_app_name (or_else flags.tag (codes "latest"))) in
            let (run, r) =
              publish
                (record {
                  context_dir = flags.context_dir;
                  dockerfile = flags.dockerfile;
                  image = image;
                  token = cfg.fly_api_token;
                })
                flags.docker_host o.docker in
            (record o { docker = run }, r)
      ]
