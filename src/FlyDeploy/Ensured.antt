-- ===== src/FlyDeploy/Ensured.antt =====
-- How a region comes to the machine that `Deploy` returns for it.
pub mod Calls
pub mod Regions
pub mod Deployment
mod Tests
use mathlib.Core.List.{Forall₂}
use turnfly.Prelude.{◌≡◌, ◌⊎◌, inl, inr, Bool, true, false, Option, none, some, List, ◌++◌}
use turnfly.Text.{Bytes, codes}
use turnfly.Text.Strings.{trim_space, equal_fold}
use turnfly.Map
use turnfly.Map.{Map}
use turnfly.FlyDeploy.Types.{Machine, MachineConfig}
use turnfly.FlyDeploy.Transport.{
  Trace, World, Client, method_post, no_body, machine_body, machines_path, machine_path,
  ignore_body,
}
use turnfly.FlyDeploy.Plan.{DeployConfig, desired_config, machine_request}
use turnfly.FlyDeploy.Answers.{Extends, Answered, widen}

module _ (world : World) (deep_equal : MachineConfig → MachineConfig → Bool) (c : Client)
    (cfg : DeployConfig) where
  -- The API answered with the machine to a request to create one for the region.
  abbrev pub Created : Bytes → Trace → Trace → Machine → Type 0
  Created region t u n =
      Answered world c method_post (machines_path cfg.app_name)
        (machine_body (machine_request cfg region)) world.decode_machine t u n

  -- A machine that was there has the wanted configuration, or the API answered with the machine to
  -- a request to update it.
  abbrev pub Configured : Bytes → Machine → Trace → Trace → Machine → Type 0
  Configured region m t u n =
      ((deep_equal m.config (desired_config cfg) ≡ true) × (n ≡ m))
      ⊎ ((deep_equal m.config (desired_config cfg) ≡ false)
          × Answered world c method_post (machine_path cfg.app_name m.id)
              (machine_body (machine_request cfg region)) world.decode_machine t u n)

  -- The machine was not reported as stopped, or the API took a request to start it.
  abbrev pub Started : Machine → Trace → Trace → Machine → Type 0
  Started m t u n =
      (equal_fold n.state (codes "stopped") ≡ false)
      ⊎ Answered world c method_post (machine_path cfg.app_name m.id ++ codes "/start") no_body
          ignore_body t u tt

  -- How a region comes to its machine between two traces, from the machine that it had.
  abbrev pub Ensured : Bytes → Option Machine → Trace → Trace → Machine → Type 0
  Ensured region none t u n = Created region t u n
  Ensured region (some m) t u n = Configured region m t u n × Started m t u n

  pub widen-Configured :
      (region : Bytes) (m : Machine) (t t' u u' : Trace) (n : Machine)
      → Extends t t'
      → Extends u' u
      → Configured region m t' u' n
      → Configured region m t u n
  widen-Configured region m t t' u u' n e f (inl k) = inl k
  widen-Configured region m t t' u u' n e f (inr (k, a)) =
      inr (k, widen world c _ _ _ _ t t' u u' n e f a)

  pub widen-Started :
      (m : Machine) (t t' u u' : Trace) (n : Machine)
      → Extends t t'
      → Extends u' u
      → Started m t' u' n
      → Started m t u n
  widen-Started m t t' u u' n e f (inl k) = inl k
  widen-Started m t t' u u' n e f (inr a) = inr (widen world c _ _ _ _ t t' u u' tt e f a)

  pub widen-Ensured :
      (region : Bytes) (o : Option Machine) (t t' u u' : Trace) (n : Machine)
      → Extends t t'
      → Extends u' u
      → Ensured region o t' u' n
      → Ensured region o t u n
  widen-Ensured region none t t' u u' n e f h = widen world c _ _ _ _ t t' u u' n e f h
  widen-Ensured region (some m) t t' u u' n e f (g, h) =
      (widen-Configured region m t t' u u' n e f g, widen-Started m t t' u u' n e f h)

  -- The machine of each region of the list, in this order.
  abbrev pub AllEnsured : Map Machine → List Bytes → Trace → Trace → List Machine → Type 0
  AllEnsured by regions t u machines =
      Forall₂ (λ r n. Ensured (trim_space r) (Map.get by (trim_space r)) t u n) regions machines
