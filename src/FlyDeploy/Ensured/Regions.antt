-- ===== src/FlyDeploy/Ensured/Regions.antt =====
-- What `Deploy` has done for each region when it succeeds.
use mathlib.Core.List.{Forall₂}
use turnfly.Prelude.{◌≡◌, sym, subst, Bool, false, List, [], ◌∷◌, if◌then◌else◌}
use turnfly.Result.{ok}
use turnfly.Text.{Bytes, codes}
use turnfly.Text.Strings.{trim_space}
use turnfly.Map
use turnfly.Map.{Map}
use turnfly.FlyDeploy.Types.{App, Machine, IpAddress, MachineConfig}
use turnfly.FlyDeploy.Transport.{Trace, World, Client, in_context, return}
use turnfly.FlyDeploy.Client.{get_machine, destroy_machine, list_machines}
use turnfly.FlyDeploy.Plan.{DeployConfig, DeployResult, by_region, desired_regions, is_desired}
use turnfly.FlyDeploy.Deployer.{converge, ensure_machine, ensure_machines, destroy_undesired}
use turnfly.FlyDeploy.Effects.{Effect, Adds-refl, Adds-trans, if-Adds, call-Effect}
use turnfly.FlyDeploy.Converging.{converge_ok}
use turnfly.FlyDeploy.Answers.{Anything, Extends, after_ok, wrap_ok, return_ok}
use turnfly.FlyDeploy.Ensured.{AllEnsured, widen-Ensured}
use turnfly.FlyDeploy.Ensured.Calls.{ensure_machine-Ensured}

module _ (world : World) (deep_equal : MachineConfig → MachineConfig → Bool) (c : Client)
    (cfg : DeployConfig) where
  module _ (wet : c.dry_run ≡ false) where
    ensure_machines-AllEnsured :
        (by : Map Machine) (rs : List Bytes) (t u : Trace) (ms : List Machine)
        → ensure_machines world deep_equal c cfg by rs t ≡ (u, ok ms)
        → ((t' u' : Trace)
            → Extends t' t
            → Extends u u'
            → AllEnsured world deep_equal c cfg by rs t' u' ms)
          × Extends t u
    unfolding ensure_machines
    ensure_machines-AllEnsured by [] t u ms h =
        let (e, x) = return_ok {A = List Machine} [] ms t u h in
        (
          λ t' u' f g.
              subst (λ k. AllEnsured world deep_equal c cfg by [] t' u' k) (sym e) Forall₂.nil,
          x,
        )
    ensure_machines-AllEnsured by (r ∷ rs) t u ms h =
        let region = trim_space r in
        let (v, m, asked, h') =
          after_ok {A = Machine} {B = List Machine}
            (in_context (codes "ensure machine")
              (ensure_machine world deep_equal c cfg region (Map.get by region)) t)
            _ u ms h in
        let (w, ns, later, h'') =
          after_ok {A = List Machine} {B = List Machine}
            (ensure_machines world deep_equal c cfg by rs v) (λ ns. return (m ∷ ns)) u ms h' in
        let (one, x) =
          ensure_machine-Ensured world deep_equal c cfg wet region (Map.get by region) t v m (
            wrap_ok (codes "ensure machine")
              (ensure_machine world deep_equal c cfg region (Map.get by region) t) v m asked) in
        let (all, y) = ensure_machines-AllEnsured by rs v w ns later in
        let (e, z) = return_ok (m ∷ ns) ms w u h'' in
        let behind = Adds-trans Anything v w u y z in
        (
          λ t' u' f g.
              subst (λ k. AllEnsured world deep_equal c cfg by (r ∷ rs) t' u' k) (sym e)
                (Forall₂.cons
                  (widen-Ensured world deep_equal c cfg region (Map.get by region) t' t u' v m f
                    (Adds-trans Anything v u u' behind g) one)
                  (all t' u' (Adds-trans Anything t' t v f x) (Adds-trans Anything w u u' z g))),
          Adds-trans Anything t v u x behind,
        )

  pub asks : (id : Bytes) → Effect Anything (get_machine world c cfg.app_name id)
  unfolding get_machine
  asks id = call-Effect Anything world c.dry_run _ _ c _ _ _ _ tt

  destroys : (id : Bytes) → Effect Anything (destroy_machine world c cfg.app_name id)
  unfolding destroy_machine
  destroys id = call-Effect Anything world c.dry_run _ _ c _ _ _ _ tt

  destroy_undesired-Extends :
      (desired : Map Bool) (es : List (Bytes × Machine)) (t : Trace)
      → Extends t (destroy_undesired world deep_equal c cfg.app_name desired es t)
  unfolding destroy_undesired
  destroy_undesired-Extends desired [] t = Adds-refl Anything t
  destroy_undesired-Extends desired ((region, m) ∷ es) t =
      let next =
        if is_desired desired region then t else (destroy_machine world c cfg.app_name m.id t).0 in
      Adds-trans Anything t next _
        (if-Adds Anything (is_desired desired region) t t _ (Adds-refl Anything t)
          (destroys m.id t))
        (destroy_undesired-Extends desired es next)

  pub converge_ensures :
      (app : App) (ips : List IpAddress) (existing : List Machine) (t u w : Trace)
      (r : DeployResult)
      → c.dry_run ≡ false
      → list_machines world c cfg.app_name t ≡ (u, ok existing)
      → converge world deep_equal c cfg app ips t ≡ (w, ok r)
      → AllEnsured world deep_equal c cfg (by_region Map.empty existing) cfg.regions u w r.machines
        × (r.ips ≡ ips)
  converge_ensures app ips existing t u w r wet listed h =
      let by = by_region Map.empty existing in
      let desired = desired_regions Map.empty cfg.regions in
      let (v, ensured, behind, same) =
        converge_ok Anything world deep_equal c cfg existing asks (λ n. tt) app ips t u w r listed
          h in
      (
        (ensure_machines-AllEnsured wet by cfg.regions _ v r.machines ensured).0 u w
            (destroy_undesired-Extends desired by.entries u) behind,
        same,
      )
