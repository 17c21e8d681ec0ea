-- ===== src/FlyDeploy/Destroying.antt =====
-- The requests of `Destroy`.
use mathlib.Core.List.{reverse, reverse_aux-eq}
use turnfly.Prelude.{
  ◌≡◌, refl, Bool, ap, sym, ◌∙◌, false, List, [], ◌∷◌, ◌++◌, map, append_assoc, if◌then◌else◌,
}
use turnfly.Result.{ok}
use turnfly.Text.{Bytes}
use turnfly.FlyDeploy.Types.{Machine, MachineConfig}
use turnfly.FlyDeploy.Requests.{call_trace}
use turnfly.FlyDeploy.Transport.{
  Action, sent, Trace, World, Client, request_of, method_delete, no_body, machine_path, ignore_body,
}
use turnfly.FlyDeploy.Client.{list_machines, destroy_machine}
use turnfly.FlyDeploy.Deployer.{destroy_all, destroy}

-- The request that destroys a machine.
abbrev pub deletion : Client → Bytes → Machine → Action
deletion c app m = sent (request_of c method_delete (machine_path app m.id) no_body)

module _ (world : World) (deep_equal : MachineConfig → MachineConfig → Bool) (c : Client)
    (app : Bytes) (wet : c.dry_run ≡ false) where
  destroy_machine-trace :
      (m : Machine) (t : Trace) → (destroy_machine world c app m.id t).0 ≡ deletion c app m ∷ t
  unfolding destroy_machine
  destroy_machine-trace m t =
      call_trace world c.dry_run tt _ c method_delete (machine_path app m.id) no_body ignore_body t
      ∙ ap (λ b. if b then t else deletion c app m ∷ t) wet

  destroy_all-trace :
      (ms : List Machine) (t : Trace)
      → destroy_all world deep_equal c app ms t ≡ reverse (map (deletion c app) ms) ++ t
  unfolding destroy_all
  destroy_all-trace [] t = refl
  destroy_all-trace (m ∷ ms) t =
      let rest = reverse (map (deletion c app) ms) in
      ap (destroy_all world deep_equal c app ms) (destroy_machine-trace m t)
      ∙ destroy_all-trace ms (deletion c app m ∷ t)
      ∙ sym (append_assoc rest (deletion c app m ∷ []) t)
      ∙ ap (λ s. s ++ t) (sym (reverse_aux-eq (map (deletion c app) ms) (deletion c app m ∷ [])))

  -- `Destroy` behind a list of the machines.
  pub destroy_lem :
      (ms : List Machine) (t u : Trace)
      → list_machines world c app t ≡ (u, ok ms)
      → destroy world deep_equal c app t ≡ (reverse (map (deletion c app) ms) ++ u, ok tt)
  unfolding destroy
  destroy_lem ms t u listed = rw (listed, destroy) (ap (λ x. (x, ok tt)) (destroy_all-trace ms u))
