-- ===== src/Cli/Deploying/Ordering.antt =====
-- `autodeploy` deploys an image only behind its publication.
use turnfly.Prelude.{
  ◌≡◌, refl, sym, subst, ap, ◌∙◌, ◌⊎◌, inl, inr, false, Option, none, Option-cases, arith,
}
use turnfly.Text.{Bytes}
use turnfly.Result.{Result, ok, err, Result-cases}
use turnfly.Config.{Config}
use turnfly.FlyDeploy.Transport.{Client, Trace, new_client}
use turnfly.FlyDeploy.Plan.{DeployConfig, DeployResult}
use turnfly.ContainerImage.{Run, PublishConfig, PublishError, build_and_push, new_docker_publisher}
use turnfly.ContainerImage.Publishing.{Pushes, build_and_push_lem}
use turnfly.Cli.{CliError, no_publisher, publish_failed}
use turnfly.Cli.Planning.{DeployFlags, with_app_flags, plan_autodeploy}
use turnfly.Cli.Deploying.{
  Services, Outside, ensure_image_app, publish, publish_config, deploy_step, after_publish,
  publish_and_deploy, after_ensure, run_autodeploy, autodeploy,
}

module _ (s : Services) where
  abbrev PushesImage : PublishConfig → Run → Type 0
  PushesImage = Pushes s.decode_message s.engine s.tar_context s.auth_header

  abbrev docker_result : PublishConfig → Run → Run × Option PublishError
  docker_result = build_and_push s.decode_message s.engine s.tar_context s.auth_header

  -- The image was built and pushed, and both answers are without an error.
  pub record Published (cfg : PublishConfig) (run : Run) : Type 0 where
    pub pushes : PushesImage cfg run
    pub succeeds : (docker_result cfg run).1 ≡ none

  published :
      (cfg : PublishConfig) (run : Run) → (docker_result cfg run).1 ≡ none → Published cfg run
  published cfg run h =
      elim (build_and_push_lem s.decode_message s.engine s.tar_context s.auth_header cfg run) [
        | inl r ↦ absurd (r.fails h)
        | inr (inl b) ↦ absurd (b.fails h)
        | inr (inr p) ↦ record { pushes = p; succeeds = h }
      ]

  -- A publication fails, or it pushes the image.
  publish_lem :
      (cfg : PublishConfig) (host : Bytes) (run : Run)
      → ((e : CliError) × ((publish s cfg host run).1 ≡ err e))
        ⊎ ((publish s cfg host run ≡ ((docker_result cfg run).0, ok tt)) × Published cfg run)
  unfolding publish
  publish_lem cfg host run = elim (Result-cases (new_docker_publisher s.docker_host_env host)) [
    | inl (e, n) ↦ inl (no_publisher e, rw (n, publish))
    | inr (p, n) ↦ elim (Option-cases (docker_result cfg run).1) [
      | inl d ↦ inr (rw (n, publish, d), published cfg run d)
      | inr (e, d) ↦ inl (publish_failed e, rw (n, publish, d))
    ]
  ]

  module _ (cfg : Config) (flags : DeployFlags) (plan : DeployConfig) (o : Outside)
      (wet : flags.dry_run ≡ false) (with_image : flags.skip_image ≡ false) where
    abbrev client : Client
    client = new_client cfg.fly_api_token flags.dry_run

    abbrev to_publish : PublishConfig
    to_publish = publish_config s cfg flags plan

    abbrev ensured : Trace × Result CliError (Unit {0})
    ensured = ensure_image_app s client cfg.fly_app_name cfg.fly_org o.fly

    -- An error before the deployer, which leaves of the Fly API what ensuring the app did; or the
    -- deployer behind a publication.
    abbrev pub Deploys : Outside × Result CliError DeployResult → Type 0
    Deploys (after, result) =
        ((e : CliError) × (result ≡ err e) × (after.fly ≡ ensured.0))
        ⊎ (Published to_publish o.docker
            × ((after, result)
                ≡ deploy_step s client plan
                    (record { fly = ensured.0; docker = (docker_result to_publish o.docker).0 })))

    publishes :
        (t : Trace)
        → publish_and_deploy s cfg flags plan (record o { fly = t })
          ≡ after_publish s client plan
              (record o { fly = t })
              (publish s to_publish flags.docker_host o.docker)
    unfolding publish_and_deploy
    publishes t = ground (arith, wet, with_image)

    ensures : run_autodeploy s cfg flags plan o ≡ after_ensure s cfg flags plan o ensured
    unfolding run_autodeploy
    ensures = ground (arith, wet)

    after_publish-err :
        (t : Trace) (x : Run × Result CliError (Unit {0})) (e : CliError)
        → x.1 ≡ err e
        → ((after_publish s client plan (record o { fly = t }) x).1 ≡ err e)
          × ((after_publish s client plan (record o { fly = t }) x).0.fly ≡ t)
    unfolding after_publish
    after_publish-err t (run, err x) e h = (ground (arith, h), refl)
    after_publish-err t (run, ok done) e h = absurd (ground (arith, h))

    after_publish-ok :
        (t : Trace) (x : Run × Result CliError (Unit {0})) (run : Run)
        → x ≡ (run, ok tt)
        → after_publish s client plan (record o { fly = t }) x
          ≡ deploy_step s client plan (record { fly = t; docker = run })
    unfolding after_publish
    after_publish-ok t x run h = ap (after_publish s client plan (record o { fly = t })) h

    after_ensure-Deploys :
        (r : Trace × Result CliError (Unit {0}))
        → r.0 ≡ ensured.0
        → Deploys (after_ensure s cfg flags plan o r)
    unfolding after_ensure
    after_ensure-Deploys (t, err e) same = inl (e, refl, same)
    after_ensure-Deploys (t, ok done) same =
        elim (publish_lem to_publish flags.docker_host o.docker) [
          | inl (e, p) ↦
              let (fails, kept) =
                after_publish-err t (publish s to_publish flags.docker_host o.docker) e p in
              inl (
                e,
                ap (λ x. x.1) (publishes t) ∙ fails,
                ap (λ x. x.0.fly) (publishes t) ∙ kept ∙ same,
              )
          | inr (p, d) ↦
              let run = (docker_result to_publish o.docker).0 in
              inr (
                d,
                publishes t
                    ∙ after_publish-ok t (publish s to_publish flags.docker_host o.docker) run p
                    ∙ ap (λ u. deploy_step s client plan (record { fly = u; docker = run })) same,
              )
        ]

    run_autodeploy-Deploys : Deploys (run_autodeploy s cfg flags plan o)
    run_autodeploy-Deploys = subst Deploys (sym ensures) (after_ensure-Deploys ensured refl)

  -- `autodeploy` with an image to build, not a dry run, on flags that give a plan: either it
  -- returns an error, and has done to the Fly API what `ensureImageApp` does and no more, or the
  -- image of the plan was built and pushed, both without an error, and the rest is the deployer's,
  -- on the plan.
  pub autodeploy-Deploys :
      (loaded : Config) (flags : DeployFlags) (timestamp : Bytes)
      (draw_secret draw_token : Result Bytes Bytes) (plan : DeployConfig) (o : Outside)
      (wet : flags.dry_run ≡ false) (with_image : flags.skip_image ≡ false)
      → plan_autodeploy
          (with_app_flags loaded flags.app_name flags.org_slug)
          flags
          timestamp
          draw_secret
          draw_token
        ≡ ok plan
      → Deploys
          (with_app_flags loaded flags.app_name flags.org_slug)
          flags
          plan
          o
          wet
          with_image
          (autodeploy s loaded flags timestamp draw_secret draw_token o)
  unfolding autodeploy
  autodeploy-Deploys loaded flags timestamp draw_secret draw_token plan o wet with_image h =
      rw (h, autodeploy)
        (run_autodeploy-Deploys (with_app_flags loaded flags.app_name flags.org_slug) flags plan o
          wet with_image)
