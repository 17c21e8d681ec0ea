-- ===== src/FlyDeploy/Deployer.antt =====
-- internal/flydeploy/deployer.go: `Deploy`, which converges the machines of an app to one for each
-- wanted region, and `Destroy`.
use turnfly.Prelude.{Bool, Option, none, some, List, [], ◌∷◌, ltb, length, if◌then◌else◌}
use turnfly.Int.{pos_part}
use turnfly.Result.{ok, err}
use turnfly.Text.{Bytes, codes, is_empty}
use turnfly.Text.Strings.{trim_space, equal_fold}
use turnfly.Map
use turnfly.Map.{Map}
use turnfly.FlyDeploy.Types.{App, effective_org_slug, MachineConfig, Machine, IpAddress, required}
use turnfly.FlyDeploy.Transport.{Call, Trace, return, fail, ◌>>=◌, in_context, World, Client}
use turnfly.FlyDeploy.Client.{
  create_app, get_app, create_machine, list_machines, update_machine, start_machine,
  destroy_machine, allocate_ip, list_ips,
}
use turnfly.FlyDeploy.Plan.{
  DeployConfig, DeployResult, with_defaults, missing, desired_config, machine_request, by_region,
  desired_regions, is_desired,
}
use turnfly.FlyDeploy.Waiting.{wait_all}

-- `deep_equal` is `reflect.DeepEqual` on two configurations.
module _ (world : World) (deep_equal : MachineConfig → MachineConfig → Bool) where
  -- `(*Deployer).ensureApp`
  unfoldable pub ensure_app : Client → Bytes → Bytes → Call App
  ensure_app c app org t =
      let (t', answer) = get_app world c app t in
      elim answer [ ok a ↦ (t', ok a) | err e ↦ create_app world c app org t' ]

  -- `(*Deployer).ensureIPs`
  unfoldable pub ensure_ips : Client → Bytes → Bytes → Call (List IpAddress)
  ensure_ips c app org = do
    existing ← list_ips world c app
    (if ltb 0 (length existing) then return existing else do
      v4 ←
          in_context (codes "allocate ipv4")
            (allocate_ip world c app (record { kind = codes "v4"; region = []; org_slug = org }))
      return (v4 ∷ []))

  -- A machine that is there: updated if its configuration differs, then started if it is stopped.
  unfoldable pub converge_machine : Client → DeployConfig → Bytes → Machine → Call Machine
  converge_machine c cfg region existing = do
    machine ←
        (if deep_equal existing.config (desired_config cfg)
          then return existing
          else in_context (codes "update machine")
              (update_machine world c cfg.app_name existing.id (machine_request cfg region)))
    (if equal_fold machine.state (codes "stopped")
        then (in_context (codes "start machine") (start_machine world c cfg.app_name existing.id)
            >>= (λ _. return machine))
        else return machine)

  -- `(*Deployer).ensureMachine`
  unfoldable pub ensure_machine : Client → DeployConfig → Bytes → Option Machine → Call Machine
  ensure_machine c cfg region none =
      create_machine world c cfg.app_name (machine_request cfg region)
  ensure_machine c cfg region (some existing) = converge_machine c cfg region existing

  -- The loop over `existingByRegion`: an error of `DestroyMachine` is only logged.
  unfoldable pub destroy_undesired :
      Client → Bytes → Map Bool → List (Bytes × Machine) → Trace → Trace
  destroy_undesired c app desired [] t = t
  destroy_undesired c app desired ((region, m) ∷ rest) t =
      destroy_undesired c app desired rest
        (if is_desired desired region then t else (destroy_machine world c app m.id t).0)

  -- The loop over the wanted regions.
  unfoldable pub ensure_machines :
      Client → DeployConfig → Map Machine → List Bytes → Call (List Machine)
  ensure_machines c cfg existing [] = return []
  ensure_machines c cfg existing (r ∷ rs) = do
    m ←
        in_context (codes "ensure machine")
          (ensure_machine c cfg (trim_space r) (Map.get existing (trim_space r)))
    ms ← ensure_machines c cfg existing rs
    return (m ∷ ms)

  -- The loop of `Destroy`: an error is only logged.
  unfoldable pub destroy_all : Client → Bytes → List Machine → Trace → Trace
  destroy_all c app [] t = t
  destroy_all c app (m ∷ ms) t = destroy_all c app ms (destroy_machine world c app m.id t).0

  -- Steps 3 to 5 of `Deploy`, behind the app and its addresses.
  unfoldable pub converge : Client → DeployConfig → App → List IpAddress → Call DeployResult
  converge c cfg app ips = do
    existing ← in_context (codes "list existing machines") (list_machines world c cfg.app_name)
    let by = by_region Map.empty existing
    let desired = desired_regions Map.empty cfg.regions
    machines ← (λ t.
        ensure_machines c cfg by cfg.regions
          (destroy_undesired c cfg.app_name desired by.entries t))
    (λ t. (
      if c.dry_run
          then t
          else wait_all world c cfg.app_name (pos_part cfg.health_timeout) machines t,
      ok (record {
        app = app;
        machines = machines;
        ips = ips;
        dry_run = c.dry_run;
        regions = cfg.regions;
      }),
    ))

  -- `(*Deployer).Deploy`
  unfoldable pub deploy : Client → DeployConfig → Call DeployResult
  deploy c given = elim (missing given) [
    | some message ↦ fail (required message)
    | none ↦
        let cfg = with_defaults given in
        do
          app ← in_context (codes "ensure app") (ensure_app c cfg.app_name cfg.org_slug)
          let org = effective_org_slug app
          ips ←
              in_context (codes "ensure ips")
                (ensure_ips c cfg.app_name (if is_empty org then cfg.org_slug else org))
          converge c cfg app ips
  ]

  -- `(*Deployer).Destroy`
  unfoldable pub destroy : Client → Bytes → Call Unit
  destroy c app = do
    machines ← in_context (codes "list machines") (list_machines world c app)
    (λ t. (destroy_all c app machines t, ok tt))
