-- ===== src/Cli/Deploying/Confirmed.antt =====
-- `destroy`, with and without its confirmation.
use mathlib.Core.List.{reverse}
use turnfly.Prelude.{
  ◌≡◌, refl, Bool, true, false, [], ◌++◌, List, map, inl, inr, Bool-cases, if◌then◌else◌,
}
use turnfly.Text.{Bytes}
use turnfly.Result.{ok}
use turnfly.Config.{Config}
use turnfly.FlyDeploy.Types.{Machine}
use turnfly.FlyDeploy.Transport.{Trace, new_client}
use turnfly.FlyDeploy.Client.{list_machines}
use turnfly.FlyDeploy.Destroying.{deletion, destroy_lem}
use turnfly.Cli.Planning.{DeployFlags, with_app_flags, check_app, is_aborted}
use turnfly.Cli.Deploying.{Services, Outside, destroy_command}

module _ (s : Services) where
  new_client-wet :
      (token : Bytes) (dry : Bool) → dry ≡ false → (new_client token dry).dry_run ≡ false
  unfolding new_client
  new_client-wet token dry h = h

  -- Without --dry-run, with the token and the app given and with an answer to the list of the
  -- machines, destroy changes nothing when its question is not answered with yes, and else sends,
  -- behind the list, one DELETE for each listed machine in their order and succeeds, whatever the
  -- DELETEs are answered.
  pub destroy_command_lem :
      (loaded : Config) (flags : DeployFlags) (yes_flag : Bool) (response : Bytes)
      (ms : List Machine) (u : Trace) (o : Outside)
      → let cfg = with_app_flags loaded flags.app_name [] in
        flags.dry_run ≡ false
        → check_app cfg ≡ ok tt
        → list_machines s.world (new_client cfg.fly_api_token flags.dry_run) cfg.fly_app_name o.fly
          ≡ (u, ok ms)
        → destroy_command s loaded flags yes_flag response o ≡ (
            if is_aborted yes_flag response then (o, ok false) else (
              record o {
                fly =
                    reverse (
                      map
                        (deletion (new_client cfg.fly_api_token flags.dry_run) cfg.fly_app_name)
                        ms)
                    ++ u;
              },
              ok true,
            ))
  unfolding destroy_command
  destroy_command_lem loaded flags yes_flag response ms u o wet checked listed =
      let cfg = with_app_flags loaded flags.app_name [] in
      let c = new_client cfg.fly_api_token flags.dry_run in
      let sent =
        destroy_lem s.world s.deep_equal c cfg.fly_app_name
          (new_client-wet cfg.fly_api_token flags.dry_run wet) ms o.fly u listed in
      elim (Bool-cases (is_aborted yes_flag response)) [
        | inl a ↦ rw (checked, destroy_command, a) refl
        | inr a ↦ rw (checked, destroy_command, a, sent) refl
      ]
