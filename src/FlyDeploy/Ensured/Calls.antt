-- ===== src/FlyDeploy/Ensured/Calls.antt =====
-- The calls of `ensureMachine` that succeed.
use turnfly.Prelude.{
  ◌≡◌, refl, sym, subst, ◌⊎◌, inl, inr, Bool, true, false, Option, none, some, ◌++◌, if◌then◌else◌,
}
use turnfly.Result.{ok}
use turnfly.Text.{Bytes, codes}
use turnfly.Text.Strings.{equal_fold}
use turnfly.FlyDeploy.Types.{Machine, MachineConfig}
use turnfly.FlyDeploy.Transport.{
  Trace, World, Client, method_post, no_body, machine_body, machine_path, ignore_body, in_context,
  return, ◌>>=◌,
}
use turnfly.FlyDeploy.Client.{create_machine, update_machine, start_machine}
use turnfly.FlyDeploy.Plan.{DeployConfig, desired_config, machine_request}
use turnfly.FlyDeploy.Deployer.{converge_machine, ensure_machine}
use turnfly.FlyDeploy.Effects.{Adds-refl, Adds-trans}
use turnfly.FlyDeploy.Answers.{
  Anything, Extends, Answered, Answered-Extends, widen, call-Answered, after_ok, wrap_ok, return_ok,
}
use turnfly.FlyDeploy.Ensured.{
  Created, Configured, Started, Ensured, widen-Configured, widen-Started,
}

module _ (world : World) (deep_equal : MachineConfig → MachineConfig → Bool) (c : Client)
    (cfg : DeployConfig) where
  module _ (wet : c.dry_run ≡ false) where
    update_answered :
        (region id : Bytes) (t u : Trace) (n : Machine)
        → update_machine world c cfg.app_name id (machine_request cfg region) t ≡ (u, ok n)
        → Answered world c method_post
            (machine_path cfg.app_name id)
            (machine_body (machine_request cfg region))
            world.decode_machine
            t
            u
            n
    unfolding update_machine
    update_answered region id t u n h = call-Answered world c _ _ _ _ c.dry_run _ n _ t u wet h

    create_answered :
        (region : Bytes) (t u : Trace) (n : Machine)
        → create_machine world c cfg.app_name (machine_request cfg region) t ≡ (u, ok n)
        → Created world deep_equal c cfg region t u n
    unfolding create_machine
    create_answered region t u n h = call-Answered world c _ _ _ _ c.dry_run _ n _ t u wet h

    start_answered :
        (id : Bytes) (t u : Trace)
        → start_machine world c cfg.app_name id t ≡ (u, ok tt)
        → Answered world c method_post
            (machine_path cfg.app_name id ++ codes "/start")
            no_body
            ignore_body
            t
            u
            tt
    unfolding start_machine
    start_answered id t u h = call-Answered world c _ _ _ _ c.dry_run _ tt _ t u wet h

    -- The update of `ensureMachine`, if one is due.
    configured :
        (equal : Bool) (region : Bytes) (m : Machine) (t u : Trace) (n : Machine)
        → (if equal
              then return m
              else in_context
                  (codes "update machine")
                  (update_machine world c cfg.app_name m.id (machine_request cfg region)))
            t
          ≡ (u, ok n)
        → (((equal ≡ true) × (n ≡ m))
            ⊎ ((equal ≡ false)
                × Answered world c method_post
                    (machine_path cfg.app_name m.id)
                    (machine_body (machine_request cfg region))
                    world.decode_machine
                    t
                    u
                    n))
          × Extends t u
    configured true region m t u n h = let (e, x) = return_ok m n t u h in (inl (refl, e), x)
    configured false region m t u n h =
        let a = update_answered region m.id t u n (wrap_ok (codes "update machine") _ u n h) in
        (inr (refl, a), Answered-Extends world c _ _ _ _ t u n a)

    -- The start of `ensureMachine`, if one is due.
    started :
        (stopped : Bool) (m n n' : Machine) (t u : Trace)
        → (if stopped
              then (in_context (codes "start machine") (start_machine world c cfg.app_name m.id)
                  >>= (λ _. return n))
              else return n)
            t
          ≡ (u, ok n')
        → (n' ≡ n)
          × ((stopped ≡ false)
              ⊎ Answered world c method_post
                  (machine_path cfg.app_name m.id ++ codes "/start")
                  no_body
                  ignore_body
                  t
                  u
                  tt)
          × Extends t u
    started true m n n' t u h =
        let (v, _, asked, r) =
          after_ok {A = Unit {0}} {B = Machine}
            (in_context (codes "start machine") (start_machine world c cfg.app_name m.id) t)
            (λ _. return n) u n' h in
        let (e, x) = return_ok n n' v u r in
        let a = start_answered m.id t v (
          wrap_ok (codes "start machine") (start_machine world c cfg.app_name m.id t) v tt asked) in
        (
          e,
          inr (widen world c _ _ _ _ t t u v tt (Adds-refl Anything t) x a),
          Adds-trans Anything t v u (Answered-Extends world c _ _ _ _ t v tt a) x,
        )
    started false m n n' t u h = let (e, x) = return_ok n n' t u h in (e, inl refl, x)

    pub ensure_machine-Ensured :
        (region : Bytes) (o : Option Machine) (t u : Trace) (n : Machine)
        → ensure_machine world deep_equal c cfg region o t ≡ (u, ok n)
        → Ensured world deep_equal c cfg region o t u n × Extends t u
    unfolding ensure_machine converge_machine
    ensure_machine-Ensured region none t u n h =
        let a = create_answered region t u n h in (a, Answered-Extends world c _ _ _ _ t u n a)
    ensure_machine-Ensured region (some m) t u n h =
        let (v, n', asked, r) =
          after_ok {A = Machine} {B = Machine}
            ((if deep_equal m.config (desired_config cfg)
                then return m
                else in_context (codes "update machine")
                    (update_machine world c cfg.app_name m.id (machine_request cfg region)))
              t)
            _ u n h in
        let (g, x) = configured (deep_equal m.config (desired_config cfg)) region m t v n' asked in
        let (e, s, y) = started (equal_fold n'.state (codes "stopped")) m n' n v u r in
        (
          subst
              (λ k.
                Configured world deep_equal c cfg region m t u k
                × Started world deep_equal c cfg m t u k)
              (sym e)
              (
                widen-Configured world deep_equal c cfg region m t t u v n' (Adds-refl Anything t) y
                    g,
                widen-Started world deep_equal c cfg m t v u u n' x (Adds-refl Anything u) s,
              ),
          Adds-trans Anything t v u x y,
        )
