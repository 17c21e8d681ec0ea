-- ===== src/FlyDeploy/DryRun.antt =====
-- What `Deploy` and `Destroy` do with a client that only pretends.
use turnfly.Prelude.{◌≡◌, refl, sym, subst, ap, ◌∙◌, Bool, true, none, List, [], ◌∷◌, map, length}
use turnfly.Result.{ok}
use turnfly.Text.{Bytes, codes}
use turnfly.Text.Strings.{trim_space}
use turnfly.Map
use turnfly.Map.{Map}
use turnfly.Map.Laws.{get-empty}
use turnfly.FlyDeploy.Types.{MachineConfig, Machine, App, IpAddress, effective_org_slug}
use turnfly.FlyDeploy.Transport.{Call, Trace, World, Client, after, wrap, ◌>>=◌, return}
use turnfly.FlyDeploy.Client.{
  dry_machine, dry_app, dry_ip, create_machine, get_app, list_ips, allocate_ip, list_machines,
}
use turnfly.FlyDeploy.Plan.{
  DeployConfig, DeployResult, with_defaults, missing, machine_request, by_region,
}
use turnfly.FlyDeploy.Deployer.{
  ensure_machine, ensure_machines, ensure_app, ensure_ips, converge, deploy, destroy,
  destroy_undesired, destroy_all,
}

-- The machines that a dry run announces.
abbrev pub planned : DeployConfig → List Machine
planned given =
    map (λ (r : Bytes). dry_machine [] (machine_request (with_defaults given) (trim_space r)))
      given.regions

-- A client that only pretends.
abbrev pretending : Client → Client
pretending c = record c { dry_run = true }

pretending_of : (c : Client) → c.dry_run ≡ true → pretending c ≡ c
pretending_of c h = ap (λ b. record c { dry_run = b }) (sym h)

abbrev planned_for : DeployConfig → List Bytes → List Machine
planned_for cfg = map (λ (r : Bytes). dry_machine [] (machine_request cfg (trim_space r)))

module _ (world : World) (deep_equal : MachineConfig → MachineConfig → Bool) where
  ensure_machine_dry :
      (c : Client) (cfg : DeployConfig) (r : Bytes) (t : Trace)
      → ensure_machine world deep_equal (pretending c) cfg r (Map.get Map.empty r) t
        ≡ (t, ok (dry_machine [] (machine_request cfg r)))
  unfolding ensure_machine create_machine
  ensure_machine_dry c cfg r t = rw (get-empty {V = Machine} r) refl

  ensure_machines_dry :
      (c : Client) (cfg : DeployConfig) (rs : List Bytes) (t : Trace)
      → ensure_machines world deep_equal (pretending c) cfg Map.empty rs t
        ≡ (t, ok (planned_for cfg rs))
  unfolding ensure_machines
  ensure_machines_dry c cfg [] t = refl
  ensure_machines_dry c cfg (r ∷ rs) t =
      ap
        (λ e. after (wrap (codes "ensure machine") e) (λ m.
          ensure_machines world deep_equal (pretending c) cfg Map.empty rs >>= λ ms.
          return (m ∷ ms)))
        (ensure_machine_dry c cfg (trim_space r) t)
      ∙ ap (λ e. after e (λ ms. return (dry_machine [] (machine_request cfg (trim_space r)) ∷ ms)))
          (ensure_machines_dry c cfg rs t)

  -- What a dry run of `Deploy` returns.
  dry_result : DeployConfig → DeployResult
  dry_result given = record {
    app = dry_app given.app_name [];
    machines = planned given;
    ips = dry_ip (record { kind = codes "v4"; region = []; org_slug = given.org_slug }) ∷ [];
    dry_run = true;
    regions = given.regions;
  }

  -- What `Deploy` returns of the machines of a dry run.
  abbrev announce : App → List IpAddress → List Bytes → List Machine → Call DeployResult
  announce app ips regions machines t = (
    t,
    ok (record { app = app; machines = machines; ips = ips; dry_run = true; regions = regions }),
  )

  converge_dry :
      (c : Client) (cfg : DeployConfig) (app : App) (ips : List IpAddress) (t : Trace)
      → converge world deep_equal (pretending c) cfg app ips t ≡ (
        t,
        ok (record {
          app = app;
          machines = planned_for cfg cfg.regions;
          ips = ips;
          dry_run = true;
          regions = cfg.regions;
        }),
      )
  unfolding converge list_machines by_region destroy_undesired Map.empty
  converge_dry c cfg app ips t =
      ap (λ e. after e (announce app ips cfg.regions)) (ensure_machines_dry c cfg cfg.regions t)

  -- A dry run with a complete configuration sends nothing and does not wait; it succeeds and
  -- announces one machine for each region of the configuration, in this order, and one address.
  pub deploy_dry :
      (c : Client) (given : DeployConfig) (t : Trace)
      → c.dry_run ≡ true
      → missing given ≡ none
      → (r : DeployResult) × (deploy world deep_equal c given t ≡ (t, ok r))
        × (r.machines ≡ planned given)
        × (length r.ips ≡ 1)
        × (r.dry_run ≡ true)
  unfolding dry_result deploy with_defaults ensure_app get_app ensure_ips list_ips allocate_ip
      effective_org_slug
  deploy_dry c given t h m =
      subst
        (λ (d : Client).
          (r : DeployResult) × (deploy world deep_equal d given t ≡ (t, ok r))
          × (r.machines ≡ planned given)
          × (length r.ips ≡ 1)
          × (r.dry_run ≡ true))
        (pretending_of c h)
        (
          dry_result given,
          rw (m, deploy) (converge_dry c (with_defaults given) _ _ t),
          refl,
          refl,
          refl,
        )

  -- A dry run of `Destroy` sends nothing.
  pub destroy_dry :
      (c : Client) (app : Bytes) (t : Trace)
      → c.dry_run ≡ true
      → destroy world deep_equal c app t ≡ (t, ok tt)
  unfolding destroy destroy_all list_machines
  destroy_dry c app t h =
      ap (λ d. destroy world deep_equal d app t) (sym (pretending_of c h)) ∙ refl
