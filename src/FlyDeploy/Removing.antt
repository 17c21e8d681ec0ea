-- ===== src/FlyDeploy/Removing.antt =====
-- Which machines a whole `Deploy` destroys.
use turnfly.Prelude.{
  ◌≡◌, refl, sym, ap, subst, ◌∙◌, ◌⊎◌, Bool, false, List, [], inl, inr, Option-cases, arith,
}
use turnfly.Result.{Result, ok, err}
use turnfly.Text.{Bytes, codes}
use turnfly.FlyDeploy.Types.{FlyError, App, Machine, IpAddress, MachineConfig}
use turnfly.FlyDeploy.Transport.{
  Trace, World, Client, Call, Method, Body, request_of, wrap, after, sent,
}
use turnfly.FlyDeploy.Client.{list_machines}
use turnfly.FlyDeploy.Plan.{DeployConfig, DeployResult, missing, with_defaults}
use turnfly.FlyDeploy.Deployer.{deploy, converge, ensure_app, ensure_ips}
use turnfly.FlyDeploy.Effects.{Adds, Effect, Adds-refl, Adds-trans, call-Effect}
use turnfly.FlyDeploy.Answers.{Anything, Extends, Adds-Extends}
use turnfly.FlyDeploy.Converging.{converge_stops}
use turnfly.FlyDeploy.Removal.{Allowed, get_machine-Effect, converge_removes}
use turnfly.FlyDeploy.Setup.{
  is_delete, ip_org, with_app, checked, deploy-none, deploy-some, ensure_app-Effect,
  ensure_ips-Effect,
}

module _ (world : World) (deep_equal : MachineConfig → MachineConfig → Bool) (c : Client)
    (cfg : DeployConfig) where
  -- Between the traces the API listed the machines.
  pub record Listed (existing : List Machine) (t u : Trace) : Type 0 where
    pub at : Trace
    pub before : Extends t at
    pub listed_at : Trace
    pub lists : list_machines world c cfg.app_name at ≡ (listed_at, ok existing)
    pub behind : Extends listed_at u

  -- Between the traces only listed machines of regions that the configuration does not name are
  -- destroyed, and none if no list was had.
  abbrev pub Removes : Trace → Trace → Type 0
  Removes t u =
      (existing : List Machine) × ((existing ≡ []) ⊎ Listed existing t u)
      × Adds (Allowed c cfg existing) t u

  keeps :
      (existing : List Machine) (m : Method) (path : Bytes) (body : Body)
      → is_delete m ≡ false
      → Allowed c cfg existing (sent (request_of c m path body))
  keeps existing m path body e h = absurd (ground (arith, ap is_delete h, e))

  list_machines-Effect :
      (existing : List Machine)
      → Effect (Allowed c cfg existing) (list_machines world c cfg.app_name)
  unfolding list_machines
  list_machines-Effect existing =
      call-Effect (Allowed c cfg existing) world c.dry_run _ _ c _ _ _ _ (keeps existing _ _ _ refl)

  -- A call that destroys nothing, and the rest.
  after-Removes :
      {A : Type 0} (text : Bytes) (t : Trace) (r : Trace × Result FlyError A)
      (f : A → Call DeployResult)
      → ((existing : List Machine) → Adds (Allowed c cfg existing) t r.0)
      → ((a : A) (u : Trace) → Removes u (f a u).0)
      → Removes t (after (wrap text r) f).0
  after-Removes text t (u, err e) f h g = ([], inl refl, h [])
  after-Removes text t (u, ok a) f h g =
      let (existing, listed, adds) = g a u in
      let first = Adds-Extends (Allowed c cfg existing) t u (h existing) in
      (
        existing,
        elim listed [
          | inl none_listed ↦ inl none_listed
          | inr l ↦ inr (record {
            at = l.at;
            before = Adds-trans Anything t u l.at first l.before;
            listed_at = l.listed_at;
            lists = l.lists;
            behind = l.behind;
          })
        ],
        Adds-trans (Allowed c cfg existing) t u (f a u).0 (h existing) adds,
      )

  converge-Removes :
      (app : App) (ips : List IpAddress) (t : Trace)
      → Removes t (converge world deep_equal c cfg app ips t).0
  converge-Removes app ips t = by_list (list_machines world c cfg.app_name t) refl
    where
      by_list :
          (r : Trace × Result FlyError (List Machine))
          → list_machines world c cfg.app_name t ≡ r
          → Removes t (converge world deep_equal c cfg app ips t).0
      by_list (u, ok existing) listed = (
        existing,
        inr (record {
          at = t;
          before = Adds-refl Anything t;
          listed_at = u;
          lists = listed;
          behind =
              Adds-Extends (Allowed c cfg existing) u _
                (converge_removes world deep_equal c cfg existing app ips t u listed);
        }),
        Adds-trans (Allowed c cfg existing) t u _
            (subst (λ z. Adds (Allowed c cfg existing) t z) (ap (λ z. z.0) listed)
              (list_machines-Effect existing t))
            (converge_removes world deep_equal c cfg existing app ips t u listed),
      )
      by_list (u, err e) failed = (
        [],
        inl refl,
        subst (λ z. Adds (Allowed c cfg []) t z)
            (ap (λ z. z.0) failed
              ∙ sym (
                  converge_stops (Allowed c cfg []) world deep_equal c cfg []
                    (get_machine-Effect world deep_equal c cfg []) (λ n. tt) app ips t u e failed))
            (list_machines-Effect [] t),
      )

  checked-Removes : (t : Trace) → Removes t (checked world deep_equal c cfg t).0
  checked-Removes t =
      after-Removes {A = App} (codes "ensure app") t
        (ensure_app world deep_equal c cfg.app_name cfg.org_slug t)
        (with_app world deep_equal c cfg)
        (λ existing.
          ensure_app-Effect world deep_equal c (Allowed c cfg existing) (keeps existing)
            cfg.app_name cfg.org_slug t)
        (λ app u.
          after-Removes {A = List IpAddress} (codes "ensure ips") u
            (ensure_ips world deep_equal c cfg.app_name (ip_org world deep_equal c cfg app) u)
            (converge world deep_equal c cfg app)
            (λ existing.
              ensure_ips-Effect world deep_equal c (Allowed c cfg existing) (keeps existing)
                cfg.app_name (ip_org world deep_equal c cfg app) u)
            (λ ips v. converge-Removes app ips v))

module _ (world : World) (deep_equal : MachineConfig → MachineConfig → Bool) (c : Client) where
  -- Every request of Deploy that destroys something destroys a machine that the API listed for
  -- the app in this run, and one whose region the configuration does not name.
  pub deploy-Removes :
      (given : DeployConfig) (t : Trace)
      → Removes world deep_equal c (with_defaults given) t (deploy world deep_equal c given t).0
  deploy-Removes given t = elim (Option-cases (missing given)) [
    | inr (message, e) ↦ (
      [],
      inl refl,
      subst (λ z. Adds (Allowed c (with_defaults given) []) t z)
          (sym (ap (λ z. z.0) (deploy-some world deep_equal c given message t e)))
          (Adds-refl (Allowed c (with_defaults given) []) t),
    )
    | inl e ↦
        subst (Removes world deep_equal c (with_defaults given) t)
          (sym (ap (λ z. z.0) (deploy-none world deep_equal c given t e)))
          (checked-Removes world deep_equal c (with_defaults given) t)
  ]
