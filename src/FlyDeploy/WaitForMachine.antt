-- ===== src/FlyDeploy/WaitForMachine.antt =====
-- internal/flydeploy/client.go: `WaitForMachine`. `escape` is `url.QueryEscape`.
use turnfly.Prelude.{ℕ, ◌+◌, ◌*◌, ◌/◌, ◌++◌, if◌then◌else◌}
use turnfly.Int.{pos}
use turnfly.Result.{Result, ok, err}
use turnfly.Clock.{second}
use turnfly.Text.{Bytes, codes}
use turnfly.Text.Decimal.{format_int}
use turnfly.Text.Strings.{equal_fold}
use turnfly.FlyDeploy.Types.{Machine, FlyError, not_reached}
use turnfly.FlyDeploy.Transport.{
  Call, Trace, World, Client, method_get, no_body, machine_path, do_request,
}
use turnfly.FlyDeploy.Poll.{pause, poll}

module _ (world : World) (escape : Bytes → Bytes) where
  -- The path and the query, whose keys `Encode` sorts. The seconds of the timeout are cut, which
  -- the float of `Seconds` does too below 2 ^ 22 of them.
  unfoldable pub wait_path : Bytes → Bytes → Bytes → ℕ → Bytes
  wait_path app id target timeout =
      machine_path app id
      ++ codes "/wait?state="
      ++ escape target
      ++ codes "&timeout="
      ++ format_int (pos (timeout / second))

  -- One round, behind the answer of the API.
  unfoldable pub state_step :
      Bytes → Call Unit → Trace × Result FlyError Machine → Trace × Result FlyError Unit
  state_step target next (t, err e) = pause world (5 * second) next t
  state_step target next (t, ok m) =
      if equal_fold m.state target then (t, ok tt) else pause world (5 * second) next t

  abbrev pub state_round : Client → Bytes → Bytes → Call Unit → Call Unit
  state_round c path target next t =
      state_step target next (do_request world c method_get path no_body world.decode_machine t)

  -- The polling of `WaitForMachine` up to the deadline.
  abbrev pub poll_state : ℕ → Client → Bytes → Bytes → Bytes → ℕ → Call Unit
  poll_state fuel c path id target deadline =
      poll world (state_round c path target) (not_reached id target) fuel deadline

  -- `(*Client).WaitForMachine`, with fuel for a round each five seconds.
  unfoldable pub wait_for_machine : Client → Bytes → Bytes → Bytes → ℕ → Call Unit
  wait_for_machine c app id target timeout t =
      if c.dry_run
      then (t, ok tt)
      else poll_state (timeout / (5 * second) + 1) c (wait_path app id target timeout) id target
          (world.clock t + timeout) t
