-- ===== src/FlyDeploy/Converging.antt =====
-- The trace of `converge`, from those of its loops.
use turnfly.Prelude.{ℕ, ◌≡◌, sym, ap, ◌∙◌, subst, Bool, List, if◌then◌else◌}
use turnfly.Int.{pos_part}
use turnfly.Result.{Result, ok, err}
use turnfly.Text.{Bytes, codes}
use turnfly.Map
use turnfly.Map.{Map}
use turnfly.FlyDeploy.Types.{FlyError, App, Machine, IpAddress, MachineConfig}
use turnfly.FlyDeploy.Transport.{Trace, Action, slept, World, Client, Call, after, wrap}
use turnfly.FlyDeploy.Client.{get_machine, list_machines}
use turnfly.FlyDeploy.Plan.{DeployConfig, DeployResult, by_region, desired_regions}
use turnfly.FlyDeploy.Waiting.{wait_all}
use turnfly.FlyDeploy.Deployer.{converge, ensure_machines, destroy_undesired}
use turnfly.FlyDeploy.Answers.{after_ok, wrap_ok}
use turnfly.FlyDeploy.Effects.{
  Adds, Effect, Adds-refl, Adds-trans, wait_all-Adds, after-Adds, if-Adds,
}

module _ (P : Action → Type 0) (world : World) (deep_equal : MachineConfig → MachineConfig → Bool)
    (c : Client) (cfg : DeployConfig) (existing : List Machine)
    (asks : (id : Bytes) → Effect P (get_machine world c cfg.app_name id))
    (sleeps : (n : ℕ) → P (slept n)) where
  -- The part of `Deploy` behind the list of machines.
  finish : App → List IpAddress → List Machine → Call DeployResult
  finish app ips machines t = (
    if c.dry_run then t else wait_all world c cfg.app_name (pos_part cfg.health_timeout) machines t,
    ok (record {
      app = app;
      machines = machines;
      ips = ips;
      dry_run = c.dry_run;
      regions = cfg.regions;
    }),
  )

  finish-Effect :
      (app : App) (ips : List IpAddress) (machines : List Machine)
      → Effect P (finish app ips machines)
  unfolding finish
  finish-Effect app ips machines t =
      if-Adds P c.dry_run t t _ (Adds-refl P t)
        (wait_all-Adds P world c cfg.app_name asks sleeps (pos_part cfg.health_timeout) machines t)

  rest : App → List IpAddress → List Machine → Call DeployResult
  rest app ips listed t =
      after
        (ensure_machines world deep_equal c cfg (by_region Map.empty listed) cfg.regions (
          destroy_undesired world deep_equal c cfg.app_name (desired_regions Map.empty cfg.regions)
            (by_region Map.empty listed).entries t))
        (finish app ips)

  -- Behind a list of machines `converge` adds what its loops may add.
  pub converge-Adds :
      (app : App) (ips : List IpAddress) (t u : Trace)
      → list_machines world c cfg.app_name t ≡ (u, ok existing)
      → Adds P u (
          destroy_undesired world deep_equal c cfg.app_name
            (desired_regions Map.empty cfg.regions)
            (by_region Map.empty existing).entries
            u)
      → Effect P (ensure_machines world deep_equal c cfg (by_region Map.empty existing) cfg.regions)
      → Adds P u (converge world deep_equal c cfg app ips t).0
  unfolding converge finish rest
  converge-Adds app ips t u listed destroys ensures =
      let by = by_region Map.empty existing in
      let d =
        destroy_undesired world deep_equal c cfg.app_name (desired_regions Map.empty cfg.regions)
          by.entries u in
      subst
        (λ (r : Trace × Result FlyError (List Machine)).
          Adds P u (after (wrap (codes "list existing machines") r) (rest app ips)).0)
        (sym listed)
        (after-Adds P {A = List Machine} {B = DeployResult} u
          (ensure_machines world deep_equal c cfg by cfg.regions d) (finish app ips)
          (Adds-trans P u d (ensure_machines world deep_equal c cfg by cfg.regions d).0 destroys
            (ensures d))
          (finish-Effect app ips))

  -- `converge` stops where the list of machines fails.
  pub converge_stops :
      (app : App) (ips : List IpAddress) (t u : Trace) (e : FlyError)
      → list_machines world c cfg.app_name t ≡ (u, err e)
      → (converge world deep_equal c cfg app ips t).0 ≡ u
  unfolding converge finish rest
  converge_stops app ips t u e failed =
      ap
        (λ (x : Trace × Result FlyError (List Machine)).
          (after (wrap (codes "list existing machines") x) (rest app ips)).0)
        failed

  -- If `converge` succeeds, then the machines are listed.
  pub converge_lists :
      (app : App) (ips : List IpAddress) (t w : Trace) (r : DeployResult)
      → converge world deep_equal c cfg app ips t ≡ (w, ok r)
      → (u : Trace) × (listed : List Machine) × (list_machines world c cfg.app_name t
          ≡ (u, ok listed))
  unfolding converge finish rest
  converge_lists app ips t w r h =
      let asked = list_machines world c cfg.app_name t in
      let (u, listed, e, _) =
        after_ok {A = List Machine} {B = DeployResult} (wrap (codes "list existing machines") asked)
          (rest app ips) w r h in
      (u, listed, wrap_ok (codes "list existing machines") asked u listed e)

  -- If `converge` succeeds behind a list of machines, then its loop over the regions has, with the
  -- machines of the result.
  pub converge_ok :
      (app : App) (ips : List IpAddress) (t u w : Trace) (r : DeployResult)
      → list_machines world c cfg.app_name t ≡ (u, ok existing)
      → converge world deep_equal c cfg app ips t ≡ (w, ok r)
      → (v : Trace) × (ensure_machines world deep_equal c cfg
            (by_region Map.empty existing)
            cfg.regions
            (destroy_undesired world deep_equal c cfg.app_name
              (desired_regions Map.empty cfg.regions)
              (by_region Map.empty existing).entries
              u)
          ≡ (v, ok r.machines))
        × Adds P v w
        × (r.ips ≡ ips)
  unfolding converge finish rest
  converge_ok app ips t u w r listed h =
      let by = by_region Map.empty existing in
      let d =
        destroy_undesired world deep_equal c cfg.app_name (desired_regions Map.empty cfg.regions)
          by.entries u in
      let (v, ms, ensured, finished) =
        after_ok {A = List Machine} {B = DeployResult}
          (ensure_machines world deep_equal c cfg by cfg.regions d) (finish app ips) w r
          (subst
            (λ (x : Trace × Result FlyError (List Machine)).
              after (wrap (codes "list existing machines") x) (rest app ips) ≡ (w, ok r))
            listed h) in
      (
        v,
        ensured
            ∙ ap (λ k. (v, ok k)) (ap (λ x. elim x.1 [ ok q ↦ q.machines | err e ↦ ms ]) finished),
        subst (λ k. Adds P v k) (ap (λ x. x.0) finished) (finish-Effect app ips ms v),
        sym (ap (λ x. elim x.1 [ ok q ↦ q.ips | err e ↦ ips ]) finished),
      )
