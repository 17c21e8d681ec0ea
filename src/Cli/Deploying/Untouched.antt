-- ===== src/Cli/Deploying/Untouched.antt =====
-- When a command does nothing to the outside.
use turnfly.Prelude.{
  ◌≡◌, refl, ap, ◌∙◌, Bool, true, ◌||◌, [], arith, inl, inr, Option-cases, Bool-cases,
}
use turnfly.Text.{Bytes}
use turnfly.Result.{Result, Result-cases}
use turnfly.Config.{Config}
use turnfly.FlyDeploy.Transport.{Client, Trace, new_client}
use turnfly.FlyDeploy.Plan.{DeployConfig, missing}
use turnfly.FlyDeploy.Deployer.{deploy}
use turnfly.FlyDeploy.DryRun.{deploy_dry, destroy_dry}
use turnfly.Cli.Planning.{
  DeployFlags, with_app_flags, plan_autodeploy, plan_deploy, check_app, is_aborted,
}
use turnfly.Cli.Deploying.{
  Services, Outside, deploy_step, publish_and_deploy, run_autodeploy, autodeploy, deploy_command,
  destroy_command,
}

module _ (s : Services) where
  deploy-dry :
      (c : Client) (given : DeployConfig) (t : Trace)
      → c.dry_run ≡ true
      → (deploy s.world s.deep_equal c given t).0 ≡ t
  unfolding deploy
  deploy-dry c given t h = elim (Option-cases (missing given)) [
    | inl m ↦ ap (λ x. x.0) (deploy_dry s.world s.deep_equal c given t h m).1
    | inr (message, m) ↦ rw (m, deploy)
  ]

  deploy_step-dry :
      (c : Client) (given : DeployConfig) (o : Outside)
      → c.dry_run ≡ true
      → (deploy_step s c given o).0 ≡ o
  unfolding deploy_step
  deploy_step-dry c given o h = ap (λ t. record o { fly = t }) (deploy-dry c given o.fly h)

  new_client-dry : (token : Bytes) (dry : Bool) → dry ≡ true → (new_client token dry).dry_run ≡ true
  unfolding new_client
  new_client-dry token dry h = h

  run_autodeploy-dry :
      (cfg : Config) (flags : DeployFlags) (plan : DeployConfig) (o : Outside)
      → flags.dry_run ≡ true
      → (run_autodeploy s cfg flags plan o).0 ≡ o
  unfolding run_autodeploy publish_and_deploy
  run_autodeploy-dry cfg flags plan o h =
      ap (λ d. (run_autodeploy s cfg (record flags { dry_run = d }) plan o).0) h
      ∙ deploy_step-dry (new_client cfg.fly_api_token true) plan o
          (new_client-dry cfg.fly_api_token true refl)

  autodeploy-dry :
      (loaded : Config) (flags : DeployFlags) (timestamp : Bytes) (d e : Result Bytes Bytes)
      (o : Outside)
      → flags.dry_run ≡ true
      → (autodeploy s loaded flags timestamp d e o).0 ≡ o
  unfolding autodeploy
  autodeploy-dry loaded flags timestamp d e o h =
      let cfg = with_app_flags loaded flags.app_name flags.org_slug in
      elim (Result-cases (plan_autodeploy cfg flags timestamp d e)) [
        | inl (x, p) ↦ rw (p, autodeploy)
        | inr (plan, p) ↦ rw (p, autodeploy) (run_autodeploy-dry cfg flags plan o h)
      ]

  deploy_command-dry :
      (loaded : Config) (flags : DeployFlags) (o : Outside)
      → flags.dry_run ≡ true
      → (deploy_command s loaded flags o).0 ≡ o
  unfolding deploy_command
  deploy_command-dry loaded flags o h =
      let cfg = with_app_flags loaded flags.app_name flags.org_slug in
      elim (Result-cases (plan_deploy cfg flags)) [
        | inl (x, p) ↦ rw (p, deploy_command)
        | inr (plan, p) ↦
            rw (p, deploy_command)
              (deploy_step-dry (new_client cfg.fly_api_token flags.dry_run) plan o
                (new_client-dry cfg.fly_api_token flags.dry_run h))
      ]

  -- Without `--yes` an answer that is not y or yes sends nothing either.
  destroy_command-dry :
      (loaded : Config) (flags : DeployFlags) (yes_flag : Bool) (response : Bytes) (o : Outside)
      → (flags.dry_run || is_aborted yes_flag response) ≡ true
      → (destroy_command s loaded flags yes_flag response o).0 ≡ o
  unfolding destroy_command
  destroy_command-dry loaded flags yes_flag response o h =
      let cfg = with_app_flags loaded flags.app_name [] in
      elim (Result-cases (check_app cfg)) [
        | inl (x, p) ↦ rw (p, destroy_command)
        | inr (done, p) ↦ elim (Bool-cases (is_aborted yes_flag response)) [
          | inl a ↦ rw (p, destroy_command, a)
          | inr a ↦
              let pretend : flags.dry_run ≡ true = ground (arith, a, h) in
              rw (p, destroy_command, a)
                (ap (λ x. record o { fly = x.0 })
                  (destroy_dry s.world s.deep_equal (new_client cfg.fly_api_token flags.dry_run)
                    cfg.fly_app_name o.fly
                    (new_client-dry cfg.fly_api_token flags.dry_run pretend)))
        ]
      ]

  -- With `--dry-run`, `autodeploy`, `deploy` and `destroy` send nothing to the Fly API and nothing
  -- to the Docker engine, whether they succeed or fail.
  pub dry_commands :
      (loaded : Config) (flags : DeployFlags) (timestamp response : Bytes) (yes_flag : Bool)
      (draw_secret draw_token : Result Bytes Bytes) (o : Outside)
      → flags.dry_run ≡ true
      → ((autodeploy s loaded flags timestamp draw_secret draw_token o).0 ≡ o)
        × ((deploy_command s loaded flags o).0 ≡ o)
        × ((destroy_command s loaded flags yes_flag response o).0 ≡ o)
  dry_commands loaded flags timestamp response yes_flag d e o h = (
    autodeploy-dry loaded flags timestamp d e o h,
    deploy_command-dry loaded flags o h,
    destroy_command-dry loaded flags yes_flag response o (ground (arith, h)),
  )
