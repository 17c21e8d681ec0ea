-- ===== src/FlyDeploy/Polling/Health.antt =====
-- How `waitForHealthy` ends.
use turnfly.Prelude.{
  ℕ, ◌+◌, ◌*◌, ◌/◌, ◌≤◌, ◌≡◌, refl, true, some, ◌∷◌, ◌||◌, arith, inl, inr, Bool-cases,
}
use turnfly.Result.{Result, ok, err}
use turnfly.Clock.{second}
use turnfly.Text.{Bytes, codes}
use turnfly.Text.Strings.{equal_fold}
use turnfly.FlyDeploy.Types.{FlyError, Machine, in_state, timed_out, context_done}
use turnfly.FlyDeploy.Transport.{Trace, slept, World, Client, Call}
use turnfly.FlyDeploy.Client.{get_machine}
use turnfly.FlyDeploy.Waiting.{poll_step, health_round, wait_for_healthy}
use turnfly.FlyDeploy.Polling.{Ticks, get_machine-clock}
use turnfly.FlyDeploy.Polling.Rules.{Ends, pause-Ends, poll-Ends}

-- How the poll ends, in the last trace and with its result: the last answer of `GetMachine`, which
-- is a machine that has started or that will not, or the deadline, or a context that is done.
pub data Outcome (world : World) (c : Client) (app id : Bytes) (deadline : ℕ)
    : Trace × Result FlyError Unit → Type 0 where
  started :
      (t u : Trace) (m : Machine)
      → get_machine world c app id t ≡ (u, ok m)
      → equal_fold m.state (codes "started") ≡ true
      → Outcome world c app id deadline (u, ok tt)
  broken :
      (t u : Trace) (m : Machine)
      → get_machine world c app id t ≡ (u, ok m)
      → equal_fold m.state (codes "error") || equal_fold m.state (codes "destroyed") ≡ true
      → Outcome world c app id deadline (u, err (in_state id m.state))
  late :
      (u : Trace)
      → deadline ≤ world.clock u
      → Outcome world c app id deadline (u, err (timed_out id))
  cancelled :
      (u : Trace) (n : ℕ)
      → world.interrupt u (10 * second) ≡ some n
      → Outcome world c app id deadline (slept n ∷ u, err context_done)

module _ (world : World) (ticks : Ticks world) (c : Client) (app id : Bytes) where
  step_outcome :
      (deadline : ℕ) (next : Call Unit) (fuel : ℕ) (t : Trace) (r : Trace × Result FlyError Machine)
      → get_machine world c app id t ≡ r
      → deadline ≤ world.clock r.0 + (fuel + 1) * (10 * second)
      → Ends world ticks (10 * second) deadline (Outcome world c app id deadline) fuel next
      → Outcome world c app id deadline (poll_step world id next r)
  unfolding poll_step
  step_outcome deadline next fuel t (u, err e) asked h rest =
      pause-Ends world ticks (10 * second) deadline (Outcome world c app id deadline) cancelled next
        fuel u h rest
  step_outcome deadline next fuel t (u, ok m) asked h rest =
      elim (Bool-cases (equal_fold m.state (codes "started"))) [
        | inl e ↦ rw (e, poll_step) (started t u m asked e)
        | inr e ↦
            elim (Bool-cases
              (equal_fold m.state (codes "error") || equal_fold m.state (codes "destroyed"))) [
                | inl f ↦ rw (e, f, poll_step) (broken t u m asked f)
                | inr f ↦
                    rw (e, f, poll_step)
                      (pause-Ends world ticks (10 * second) deadline
                        (Outcome world c app id deadline) cancelled next fuel u h rest)
              ]
      ]

  -- With a clock that does not run backwards and that a sleep moves on by at least its duration,
  -- waitForHealthy returns: it succeeds only behind an answer with a machine that has started, it
  -- reports a state only behind an answer with a machine in it, which is error or destroyed, it
  -- times out only behind the deadline, and it fails with the error of the context only when this
  -- is done.
  pub wait_for_healthy_outcome :
      (timeout : ℕ) (t : Trace)
      → Outcome world c app id (world.clock t + timeout) (wait_for_healthy world c app id timeout t)
  unfolding wait_for_healthy
  wait_for_healthy_outcome timeout t =
      let deadline = world.clock t + timeout in
      poll-Ends world ticks (10 * second) deadline (Outcome world c app id deadline)
        (health_round world c app id) (timed_out id) late
        (λ next fuel u h rest.
          step_outcome deadline next fuel u (get_machine world c app id u) refl
            (omega (arith, get_machine-clock world ticks c app id u)) rest)
        (timeout / (10 * second) + 1) t (omega arith)
