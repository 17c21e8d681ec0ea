-- ===== src/FlyDeploy/Removal.antt =====
-- Which machines `Deploy` destroys.
use mathlib.Core.List.{Memᴰ}
use turnfly.Prelude.{
  ◌≡◌, refl, ap, ◌∙◌, Bool, false, Option, none, some, List, [], ◌∷◌, All, inl, inr, Bool-cases,
  arith,
}
use turnfly.Result.{ok}
use turnfly.Text.{Bytes, codes}
use turnfly.Text.Strings.{trim_space, equal_fold}
use turnfly.Map
use turnfly.Map.{Map}
use turnfly.Map.Laws.{get-empty}
use turnfly.FlyDeploy.Types.{App, Machine, IpAddress, MachineConfig}
use turnfly.FlyDeploy.Transport.{
  Trace, Action, Request, sent, slept, World, Client, Call, method_delete, no_body, machine_path,
  request_of, in_context, return, ◌>>=◌,
}
use turnfly.FlyDeploy.Client.{
  get_machine, create_machine, update_machine, start_machine, destroy_machine, list_machines,
}
use turnfly.FlyDeploy.Plan.{
  DeployConfig, by_region, desired_regions, is_desired, desired_config, machine_request,
}
use turnfly.FlyDeploy.Deployer.{
  converge, converge_machine, ensure_machine, ensure_machines, destroy_undesired,
}
use turnfly.FlyDeploy.Effects.{
  Adds, Effect, Adds-refl, Adds-trans, return-Effect, context-Effect, bind-Effect, if-Effect,
  call-Effect,
}
use turnfly.FlyDeploy.Converging.{converge-Adds}
use turnfly.FlyDeploy.Wanted.{
  contains, desired_regions_lem, by_region-All, EntryOf, All-self, no_entries,
}

-- The request that destroys a listed machine of a region that the configuration does not name.
pub record Removes (c : Client) (cfg : DeployConfig) (existing : List Machine) (r : Request)
    : Type 0 where
  pub machine : Machine
  pub listed : Memᴰ machine existing
  pub unwanted : contains machine.region cfg.regions ≡ false
  pub request : r ≡ request_of c method_delete (machine_path cfg.app_name machine.id) no_body

-- A request that destroys nothing, or such a request; or a sleep.
abbrev pub Allowed : Client → DeployConfig → List Machine → Action → Type 0
Allowed c cfg existing (sent r) = r.method ≡ method_delete → Removes c cfg existing r
Allowed c cfg existing (slept n) = Unit

module _ (world : World) (deep_equal : MachineConfig → MachineConfig → Bool) (c : Client)
    (cfg : DeployConfig) (existing : List Machine) where
  abbrev P : Action → Type 0
  P = Allowed c cfg existing

  pub get_machine-Effect : (id : Bytes) → Effect P (get_machine world c cfg.app_name id)
  unfolding get_machine
  get_machine-Effect id =
      call-Effect P world c.dry_run _ _ c _ _ _ _ (λ e. absurd (ground (arith, e)))

  create_machine-Effect :
      (region : Bytes) → Effect P (create_machine world c cfg.app_name (machine_request cfg region))
  unfolding create_machine
  create_machine-Effect region =
      call-Effect P world c.dry_run _ _ c _ _ _ _ (λ e. absurd (ground (arith, e)))

  update_machine-Effect :
      (id region : Bytes)
      → Effect P (update_machine world c cfg.app_name id (machine_request cfg region))
  unfolding update_machine
  update_machine-Effect id region =
      call-Effect P world c.dry_run _ _ c _ _ _ _ (λ e. absurd (ground (arith, e)))

  start_machine-Effect : (id : Bytes) → Effect P (start_machine world c cfg.app_name id)
  unfolding start_machine
  start_machine-Effect id =
      call-Effect P world c.dry_run _ _ c _ _ _ _ (λ e. absurd (ground (arith, e)))

  ensure_machine-Effect :
      (region : Bytes) (o : Option Machine)
      → Effect P (ensure_machine world deep_equal c cfg region o)
  unfolding ensure_machine converge_machine
  ensure_machine-Effect region none = create_machine-Effect region
  ensure_machine-Effect region (some m) =
      bind-Effect P _ _
        (if-Effect P (deep_equal m.config (desired_config cfg)) _ _ (return-Effect P m)
          (context-Effect P _ _ (update_machine-Effect m.id region)))
        (λ n.
          if-Effect P (equal_fold n.state (codes "stopped")) _ _
            (bind-Effect P _ _ (context-Effect P _ _ (start_machine-Effect m.id))
              (λ _. return-Effect P n))
            (return-Effect P n))

  ensure_machines-Effect :
      (by : Map Machine) (rs : List Bytes) → Effect P (ensure_machines world deep_equal c cfg by rs)
  unfolding ensure_machines
  ensure_machines-Effect by [] = return-Effect P {A = List Machine} []
  ensure_machines-Effect by (r ∷ rs) =
      bind-Effect P {A = Machine} {B = List Machine}
        (in_context (codes "ensure machine") (ensure_one r))
        (λ m. ensure_machines world deep_equal c cfg by rs >>= λ ms. return (m ∷ ms))
        (context-Effect P (codes "ensure machine") (ensure_one r)
          (ensure_machine-Effect (trim_space r) (Map.get by (trim_space r))))
        (λ m.
          bind-Effect P {A = List Machine} {B = List Machine}
            (ensure_machines world deep_equal c cfg by rs) (λ ms. return (m ∷ ms))
            (ensure_machines-Effect by rs) (λ ms. return-Effect P {A = List Machine} (m ∷ ms)))
    where
      ensure_one : Bytes → Call Machine
      ensure_one r =
          ensure_machine world deep_equal c cfg (trim_space r) (Map.get by (trim_space r))

  destroy_machine-Effect :
      (m : Machine)
      → Memᴰ m existing
      → contains m.region cfg.regions ≡ false
      → Effect P (destroy_machine world c cfg.app_name m.id)
  unfolding destroy_machine
  destroy_machine-Effect m l u =
      call-Effect P world c.dry_run _ _ c _ _ _ _
        (λ _. record { machine = m; listed = l; unwanted = u; request = refl })

  destroy_undesired-Adds :
      (es : List (Bytes × Machine)) (t : Trace)
      → All (EntryOf (λ m. Memᴰ m existing)) es
      → Adds P t (
          destroy_undesired world deep_equal c cfg.app_name
            (desired_regions Map.empty cfg.regions)
            es
            t)
  unfolding destroy_undesired
  destroy_undesired-Adds [] t h = Adds-refl P t
  destroy_undesired-Adds ((region, m) ∷ es) t h =
      elim (Bool-cases (is_desired (desired_regions Map.empty cfg.regions) region)) [
        | inl e ↦ rw (e, destroy_undesired) (destroy_undesired-Adds es t h.1)
        | inr e ↦
            rw (e, destroy_undesired)
              (Adds-trans P t (destroy_machine world c cfg.app_name m.id t).0 _
                (destroy_machine-Effect m h.0.0
                  (ap (λ r. contains r cfg.regions) h.0.1
                    ∙ ground (
                      arith,
                      e,
                      desired_regions_lem Map.empty cfg.regions region,
                      get-empty {V = Bool} region,
                    ))
                  t)
                (destroy_undesired-Adds es (destroy_machine world c cfg.app_name m.id t).0 h.1))
      ]

  -- Once the machines are listed, every request of `Deploy` that destroys something destroys a
  -- listed machine, and one whose region the configuration does not name.
  pub converge_removes :
      (app : App) (ips : List IpAddress) (t u : Trace)
      → list_machines world c cfg.app_name t ≡ (u, ok existing)
      → Adds P u (converge world deep_equal c cfg app ips t).0
  converge_removes app ips t u listed =
      let by = by_region Map.empty existing in
      converge-Adds P world deep_equal c cfg existing get_machine-Effect (λ n. tt) app ips t u
        listed
        (destroy_undesired-Adds by.entries u (
          by_region-All (λ m. Memᴰ m existing) Map.empty existing
            (no_entries (EntryOf (λ m. Memᴰ m existing))) (All-self existing)))
        (ensure_machines-Effect by cfg.regions)
