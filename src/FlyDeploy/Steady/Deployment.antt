-- ===== src/FlyDeploy/Steady/Deployment.antt =====
-- A whole `Deploy` of an app that is as the configuration wants it.
use turnfly.Prelude.{
  ◌≡◌, refl, sym, ap, subst, ◌∙◌, Bool, true, ℕ, suc, ltb, length, if◌then◌else◌, arith, none, List,
  ◌∷◌, All,
}
use turnfly.Result.{Result, ok}
use turnfly.Text.{Bytes, codes}
use turnfly.Map
use turnfly.FlyDeploy.Types.{FlyError, App, Machine, IpAddress, MachineConfig}
use turnfly.FlyDeploy.Transport.{Trace, World, Client, after, wrap, return}
use turnfly.FlyDeploy.Client.{get_app, list_ips, list_machines}
use turnfly.FlyDeploy.Plan.{DeployConfig, by_region, missing, with_defaults}
use turnfly.FlyDeploy.Deployer.{deploy, converge, ensure_app, ensure_ips}
use turnfly.FlyDeploy.Effects.{Adds, Effect, Adds-trans, call-Effect}
use turnfly.FlyDeploy.Wanted.{contains}
use turnfly.FlyDeploy.Setup.{ip_org, with_app, deploy-none, some_address, one_address}
use turnfly.FlyDeploy.Steady.{ReadOnly, Settled, converge_steady}

module _ (world : World) (deep_equal : MachineConfig → MachineConfig → Bool) (c : Client) where
  get_app-ReadOnly : (app : Bytes) → Effect ReadOnly (get_app world c app)
  unfolding get_app
  get_app-ReadOnly app = call-Effect ReadOnly world c.dry_run _ _ c _ _ _ _ refl

  list_ips-ReadOnly : (app : Bytes) → Effect ReadOnly (list_ips world c app)
  unfolding list_ips
  list_ips-ReadOnly app = call-Effect ReadOnly world c.dry_run _ _ c _ _ _ _ refl

  list_machines-ReadOnly : (app : Bytes) → Effect ReadOnly (list_machines world c app)
  unfolding list_machines
  list_machines-ReadOnly app = call-Effect ReadOnly world c.dry_run _ _ c _ _ _ _ refl

  -- A call that ends in a known trace.
  ends_at :
      {A : Type 0} (t u : Trace) (r : Trace × Result FlyError A) (a : A)
      → r ≡ (u, ok a)
      → Adds ReadOnly t r.0
      → Adds ReadOnly t u
  ends_at t u r a h = subst (λ z. Adds ReadOnly t z) (ap (λ z. z.0) h)

  ensure_app_found :
      (app org : Bytes) (a : App) (t u : Trace)
      → get_app world c app t ≡ (u, ok a)
      → ensure_app world deep_equal c app org t ≡ (u, ok a)
  unfolding ensure_app
  ensure_app_found app org a t u h =
      rw (h, ensure_app) (ap (λ (z : Trace × Result FlyError App). (z.0, ok a)) h)

  ensure_ips_found :
      (app org : Bytes) (ip : IpAddress) (ips : List IpAddress) (t u : Trace)
      → list_ips world c app t ≡ (u, ok (ip ∷ ips))
      → ensure_ips world deep_equal c app org t ≡ (u, ok (ip ∷ ips))
  unfolding ensure_ips
  ensure_ips_found app org ip ips t u h =
      ap
        (λ (x : Trace × Result FlyError (List IpAddress)).
          after x (some_address world deep_equal c app org))
        h
      ∙ ap (λ b. (if b then return (ip ∷ ips) else one_address world deep_equal c app org) u)
          (is_some (length ips))
    where
      is_some : (n : ℕ) → ltb 0 (suc n) ≡ true
      is_some n = ground arith

  -- `Deploy` behind an app with an address.
  deploy_found :
      (given : DeployConfig) (a : App) (ip : IpAddress) (ips : List IpAddress) (t u v : Trace)
      → missing given ≡ none
      → get_app world c (with_defaults given).app_name t ≡ (u, ok a)
      → list_ips world c (with_defaults given).app_name u ≡ (v, ok (ip ∷ ips))
      → deploy world deep_equal c given t
        ≡ converge world deep_equal c (with_defaults given) a (ip ∷ ips) v
  deploy_found given a ip ips t u v complete app_found ip_found =
      let cfg = with_defaults given in
      deploy-none world deep_equal c given t complete
      ∙ ap
          (λ (x : Trace × Result FlyError App).
            after (wrap (codes "ensure app") x) (with_app world deep_equal c cfg))
          (ensure_app_found cfg.app_name cfg.org_slug a t u app_found)
      ∙ ap
          (λ (x : Trace × Result FlyError (List IpAddress)).
            after (wrap (codes "ensure ips") x) (converge world deep_equal c cfg a))
          (ensure_ips_found cfg.app_name (ip_org world deep_equal c cfg a) ip ips u v ip_found)

  -- Where the API answers with the app, with an address and with machines that all stand in a
  -- region that the complete configuration names, and the machine of each of its regions has the
  -- wanted configuration and is not stopped, a whole Deploy only asks and sleeps: it changes
  -- nothing.
  pub deploy_steady :
      (given : DeployConfig) (a : App) (ip : IpAddress) (ips : List IpAddress)
      (existing : List Machine) (t u v w : Trace)
      → missing given ≡ none
      → get_app world c (with_defaults given).app_name t ≡ (u, ok a)
      → list_ips world c (with_defaults given).app_name u ≡ (v, ok (ip ∷ ips))
      → list_machines world c (with_defaults given).app_name v ≡ (w, ok existing)
      → All (λ m. contains m.region given.regions ≡ true) existing
      → All (Settled deep_equal (with_defaults given) (by_region Map.empty existing)) given.regions
      → Adds ReadOnly t (deploy world deep_equal c given t).0
  unfolding with_defaults
  deploy_steady given a ip ips existing t u v w complete app_found ip_found listed named settled =
      let cfg = with_defaults given in
      subst (λ z. Adds ReadOnly t z)
        (sym (ap (λ z. z.0) (deploy_found given a ip ips t u v complete app_found ip_found)))
        (Adds-trans ReadOnly t u _
          (ends_at t u (get_app world c cfg.app_name t) a app_found
            (get_app-ReadOnly cfg.app_name t))
          (Adds-trans ReadOnly u v _
            (ends_at u v (list_ips world c cfg.app_name u) (ip ∷ ips) ip_found
              (list_ips-ReadOnly cfg.app_name u))
            (Adds-trans ReadOnly v w _
              (ends_at v w (list_machines world c cfg.app_name v) existing listed
                (list_machines-ReadOnly cfg.app_name v))
              (converge_steady world deep_equal c cfg existing a (ip ∷ ips) v w listed named
                settled))))
