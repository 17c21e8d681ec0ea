-- ===== src/FlyDeploy/Steady.antt =====
-- What `Deploy` does to an app that is as the configuration wants it.
pub mod Deployment
mod Tests
use turnfly.Prelude.{
  true, ◌≡◌, refl, sym, ap, subst, ◌∙◌, Bool, false, some, List, [], ◌∷◌, All, arith,
}
use turnfly.Result.{Result, ok}
use turnfly.Text.{Bytes, codes}
use turnfly.Text.Strings.{trim_space, equal_fold}
use turnfly.Map
use turnfly.Map.{Map}
use turnfly.Map.Laws.{get-empty}
use turnfly.FlyDeploy.Types.{FlyError, App, Machine, IpAddress, MachineConfig}
use turnfly.FlyDeploy.Transport.{
  method_get, Trace, Action, sent, slept, World, Client, Call, in_context, return, ◌>>=◌,
}
use turnfly.FlyDeploy.Client.{get_machine, list_machines}
use turnfly.FlyDeploy.Plan.{DeployConfig, by_region, desired_regions, is_desired, desired_config}
use turnfly.FlyDeploy.Deployer.{
  converge, converge_machine, ensure_machine, ensure_machines, destroy_undesired,
}
use turnfly.FlyDeploy.Effects.{
  Adds, Effect, Adds-refl, return-Effect, context-Effect, bind-Effect, call-Effect,
}
use turnfly.FlyDeploy.Converging.{converge-Adds}
use turnfly.FlyDeploy.Wanted.{contains, desired_regions_lem, by_region-All, EntryOf, no_entries}

-- A request that only asks, or a sleep.
abbrev pub ReadOnly : Action → Type 0
ReadOnly (sent r) = r.method ≡ method_get
ReadOnly (slept n) = Unit

-- The machine of a region has the wanted configuration and is not stopped.
pub record Settled (deep_equal : MachineConfig → MachineConfig → Bool) (cfg : DeployConfig)
    (by : Map Machine) (region : Bytes) : Type 0 where
  pub machine : Machine
  pub found : Map.get by (trim_space region) ≡ some machine
  pub configured : deep_equal machine.config (desired_config cfg) ≡ true
  pub running : equal_fold machine.state (codes "stopped") ≡ false

module _ (world : World) (deep_equal : MachineConfig → MachineConfig → Bool) (c : Client)
    (cfg : DeployConfig) (existing : List Machine) where
  asks : (id : Bytes) → Effect ReadOnly (get_machine world c cfg.app_name id)
  unfolding get_machine
  asks id = call-Effect ReadOnly world c.dry_run _ _ c _ _ _ _ refl

  ensure_machine_kept :
      (region : Bytes) (m : Machine) (t : Trace)
      → deep_equal m.config (desired_config cfg) ≡ true
      → equal_fold m.state (codes "stopped") ≡ false
      → ensure_machine world deep_equal c cfg region (some m) t ≡ (t, ok m)
  unfolding ensure_machine converge_machine
  ensure_machine_kept region m t e f = rw (e, converge_machine) (rw f refl)

  ensure_machines-ReadOnly :
      (by : Map Machine) (rs : List Bytes)
      → All (Settled deep_equal cfg by) rs
      → Effect ReadOnly (ensure_machines world deep_equal c cfg by rs)
  unfolding ensure_machines
  ensure_machines-ReadOnly by [] h = return-Effect ReadOnly {A = List Machine} []
  ensure_machines-ReadOnly by (r ∷ rs) h =
      bind-Effect ReadOnly {A = Machine} {B = List Machine}
        (in_context (codes "ensure machine") (ensure_one r))
        (λ m. ensure_machines world deep_equal c cfg by rs >>= λ ms. return (m ∷ ms))
        (context-Effect ReadOnly (codes "ensure machine") (ensure_one r) one)
        (λ m.
          bind-Effect ReadOnly {A = List Machine} {B = List Machine}
            (ensure_machines world deep_equal c cfg by rs) (λ ms. return (m ∷ ms))
            (ensure_machines-ReadOnly by rs h.1)
            (λ ms. return-Effect ReadOnly {A = List Machine} (m ∷ ms)))
    where
      ensure_one : Bytes → Call Machine
      ensure_one r =
          ensure_machine world deep_equal c cfg (trim_space r) (Map.get by (trim_space r))

      one : Effect ReadOnly (ensure_one r)
      one t =
          subst (λ o. Adds ReadOnly t (ensure_machine world deep_equal c cfg (trim_space r) o t).0)
            (sym h.0.found)
            (subst (λ (x : Trace × Result FlyError Machine). Adds ReadOnly t x.0)
              (sym (ensure_machine_kept (trim_space r) h.0.machine t h.0.configured h.0.running))
              (Adds-refl ReadOnly t))

  destroy_undesired_none :
      (es : List (Bytes × Machine)) (t : Trace)
      → All (EntryOf (λ m. contains m.region cfg.regions ≡ true)) es
      → Adds ReadOnly t (
          destroy_undesired world deep_equal c cfg.app_name
            (desired_regions Map.empty cfg.regions)
            es
            t)
  unfolding destroy_undesired
  destroy_undesired_none [] t h = Adds-refl ReadOnly t
  destroy_undesired_none ((region, m) ∷ es) t h =
      rw (wanted, destroy_undesired) (destroy_undesired_none es t h.1)
    where
      wanted : is_desired (desired_regions Map.empty cfg.regions) region ≡ true
      wanted =
          desired_regions_lem Map.empty cfg.regions region
          ∙ ground
              (arith, ap (λ r. contains r cfg.regions) h.0.1, h.0.0, get-empty {V = Bool} region)

  -- If every listed machine stands in a region that the configuration names, and the machine of
  -- each of its regions has the wanted configuration and is not stopped, then behind the list
  -- Deploy only asks and sleeps: it changes nothing.
  pub converge_steady :
      (app : App) (ips : List IpAddress) (t u : Trace)
      → list_machines world c cfg.app_name t ≡ (u, ok existing)
      → All (λ m. contains m.region cfg.regions ≡ true) existing
      → All (Settled deep_equal cfg (by_region Map.empty existing)) cfg.regions
      → Adds ReadOnly u (converge world deep_equal c cfg app ips t).0
  converge_steady app ips t u listed named settled =
      let by = by_region Map.empty existing in
      converge-Adds ReadOnly world deep_equal c cfg existing asks (λ n. tt) app ips t u listed
        (destroy_undesired_none by.entries u (
          by_region-All (λ m. contains m.region cfg.regions ≡ true) Map.empty existing
            (no_entries (EntryOf (λ m. contains m.region cfg.regions ≡ true))) named))
        (ensure_machines-ReadOnly by cfg.regions settled)
