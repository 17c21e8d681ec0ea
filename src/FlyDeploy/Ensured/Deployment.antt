-- ===== src/FlyDeploy/Ensured/Deployment.antt =====
-- What `Deploy` has done when it succeeds.
use turnfly.Prelude.{
  ◌≡◌, sym, ap, subst, ◌∙◌, Bool, true, false, none, List, [], length, ltb, Option-cases, inl, inr,
  arith,
}
use turnfly.Result.{ok}
use turnfly.Text.{codes}
use turnfly.Map
use turnfly.FlyDeploy.Types.{App, Machine, IpAddress, MachineConfig}
use turnfly.FlyDeploy.Transport.{Trace, World, Client, in_context}
use turnfly.FlyDeploy.Client.{list_machines}
use turnfly.FlyDeploy.Plan.{DeployConfig, DeployResult, by_region, missing, with_defaults}
use turnfly.FlyDeploy.Deployer.{deploy, converge, ensure_app, ensure_ips}
use turnfly.FlyDeploy.Effects.{Adds-trans}
use turnfly.FlyDeploy.Converging.{converge_lists}
use turnfly.FlyDeploy.Answers.{Anything, Extends, after_ok, wrap_ok}
use turnfly.FlyDeploy.Ensured.{AllEnsured}
use turnfly.FlyDeploy.Ensured.Regions.{asks, converge_ensures}
use turnfly.FlyDeploy.Setup.{
  ip_org, with_app, checked, deploy-none, deploy-some, ensure_app-Effect, ensure_ips-Effect,
  ensure_ips-some,
}

module _ (world : World) (deep_equal : MachineConfig → MachineConfig → Bool) (c : Client) where
  -- Behind a list of the machines, each region came to the machine that the result has for it.
  pub record Deployed (cfg : DeployConfig) (t u : Trace) (r : DeployResult) : Type 0 where
    pub at : Trace
    pub before : Extends t at
    pub listed_at : Trace
    pub listed : List Machine
    pub lists : list_machines world c cfg.app_name at ≡ (listed_at, ok listed)
    pub each :
        AllEnsured world deep_equal c cfg
          (by_region Map.empty listed)
          cfg.regions
          listed_at
          u
          r.machines

  checked-Deployed :
      (cfg : DeployConfig) (t u : Trace) (r : DeployResult)
      → c.dry_run ≡ false
      → checked world deep_equal c cfg t ≡ (u, ok r)
      → (ltb 0 (length r.ips) ≡ true) × Deployed cfg t u r
  checked-Deployed cfg t u r wet h =
      let app_asked = ensure_app world deep_equal c cfg.app_name cfg.org_slug t in
      let (v, app, first, h') =
        after_ok {A = App} {B = DeployResult}
          (in_context (codes "ensure app") (ensure_app world deep_equal c cfg.app_name cfg.org_slug)
            t)
          (with_app world deep_equal c cfg) u r h in
      let ips_asked =
        ensure_ips world deep_equal c cfg.app_name (ip_org world deep_equal c cfg app) v in
      let (x, ips, second, h'') =
        after_ok {A = List IpAddress} {B = DeployResult}
          (in_context (codes "ensure ips")
            (ensure_ips world deep_equal c cfg.app_name (ip_org world deep_equal c cfg app)) v)
          (converge world deep_equal c cfg app) u r h' in
      let app_is = wrap_ok (codes "ensure app") app_asked v app first in
      let ips_are = wrap_ok (codes "ensure ips") ips_asked x ips second in
      let (y, listed, lists) =
        converge_lists Anything world deep_equal c cfg [] (asks world deep_equal c cfg) (λ n. tt)
          app ips x u r h'' in
      let (each, same) =
        converge_ensures world deep_equal c cfg app ips listed x y u r wet lists h'' in
      (
        ap (λ l. ltb 0 (length l)) same
            ∙ ensure_ips-some world deep_equal c cfg.app_name (ip_org world deep_equal c cfg app) v
                x ips ips_are,
        record {
          at = x;
          before =
              Adds-trans Anything t v x
                (subst (λ z. Extends t z) (ap (λ z. z.0) app_is)
                  (ensure_app-Effect world deep_equal c Anything (λ m path body e. tt) cfg.app_name
                    cfg.org_slug t))
                (subst (λ z. Extends v z) (ap (λ z. z.0) ips_are)
                  (ensure_ips-Effect world deep_equal c Anything (λ m path body e. tt) cfg.app_name
                    (ip_org world deep_equal c cfg app) v));
          listed_at = y;
          listed = listed;
          lists = lists;
          each = each;
        },
      )

  -- If Deploy succeeds outside a dry run, its configuration was complete and its result has an
  -- address and, for each region of the configuration, in this order, a machine: where the list
  -- that it asked for had no machine in the region, the API answered with it to a request to create
  -- one with the wanted configuration; where it had one, this is it, if it had the wanted
  -- configuration, or else the API answered with it to a request to update it; and unless the
  -- machine was then reported in another state than stopped, the API took a request to start it.
  pub deploy_lem :
      (given : DeployConfig) (t u : Trace) (r : DeployResult)
      → c.dry_run ≡ false
      → deploy world deep_equal c given t ≡ (u, ok r)
      → (missing given ≡ none)
        × (ltb 0 (length r.ips) ≡ true)
        × Deployed (with_defaults given) t u r
  deploy_lem given t u r wet h = elim (Option-cases (missing given)) [
    | inr (message, e) ↦
        absurd (ground (arith, deploy-some world deep_equal c given message t e, h))
    | inl e ↦
        let (address, deployed) =
          checked-Deployed (with_defaults given) t u r wet
            (sym (deploy-none world deep_equal c given t e) ∙ h) in
        (e, address, deployed)
  ]
