-- ===== src/FlyDeploy/Waiting.antt =====
-- internal/flydeploy/deployer.go: `waitForHealthy`, and the loop of `Deploy` that calls it.
use turnfly.Prelude.{ℕ, ◌+◌, ◌*◌, ◌/◌, List, [], ◌∷◌, ◌||◌, if◌then◌else◌}
use turnfly.Result.{Result, ok, err}
use turnfly.Clock.{second}
use turnfly.Text.{Bytes, codes}
use turnfly.Text.Strings.{equal_fold}
use turnfly.FlyDeploy.Types.{Machine, FlyError, in_state, timed_out}
use turnfly.FlyDeploy.Transport.{Call, Trace, World, Client}
use turnfly.FlyDeploy.Client.{get_machine}
use turnfly.FlyDeploy.Poll.{pause, poll}

module _ (world : World) where
  -- One poll, behind the answer of `GetMachine`.
  unfoldable pub poll_step :
      Bytes → Call Unit → Trace × Result FlyError Machine → Trace × Result FlyError Unit
  poll_step id next (t, err e) = pause world (10 * second) next t
  poll_step id next (t, ok m) =
      if equal_fold m.state (codes "started")
      then (t, ok tt)
      else if equal_fold m.state (codes "error") || equal_fold m.state (codes "destroyed")
      then (t, err (in_state id m.state))
      else pause world (10 * second) next t

  abbrev pub health_round : Client → Bytes → Bytes → Call Unit → Call Unit
  health_round c app id next t = poll_step id next (get_machine world c app id t)

  -- The polling of `waitForHealthy` up to the deadline. `fuel` bounds the rounds, each of which
  -- but the last sleeps for ten seconds.
  abbrev pub poll_health : ℕ → Client → Bytes → Bytes → ℕ → Call Unit
  poll_health fuel c app id deadline =
      poll world (health_round c app id) (timed_out id) fuel deadline

  -- `(*Deployer).waitForHealthy`, with fuel for a poll each ten seconds.
  unfoldable pub wait_for_healthy : Client → Bytes → Bytes → ℕ → Call Unit
  wait_for_healthy c app id timeout t =
      poll_health (timeout / (10 * second) + 1) c app id (world.clock t + timeout) t

  -- The loop of waits in `Deploy`: an error is only logged.
  unfoldable pub wait_all : Client → Bytes → ℕ → List Machine → Trace → Trace
  wait_all c app timeout [] t = t
  wait_all c app timeout (m ∷ ms) t =
      wait_all c app timeout ms (wait_for_healthy c app m.id timeout t).0
