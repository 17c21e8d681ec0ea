-- ===== src/FlyDeploy/Polling/State.antt =====
-- The polling of `WaitForMachine`, and how it ends.
use turnfly.Prelude.{
  ℕ, ◌+◌, ◌*◌, ◌/◌, ◌≤◌, ◌<◌, ◌≡◌, refl, sym, ap, ◌∙◌, true, some, ◌∷◌, false, if◌then◌else◌, arith,
  inl, inr, Bool-cases,
}
use turnfly.Result.{Result, ok, err}
use turnfly.Clock.{second}
use turnfly.Text.{Bytes}
use turnfly.Text.Strings.{equal_fold}
use turnfly.FlyDeploy.Types.{FlyError, not_reached, context_done, Machine}
use turnfly.FlyDeploy.Transport.{
  Trace, slept, World, Client, Call, request_of, method_get, no_body, do_request,
}
use turnfly.FlyDeploy.WaitForMachine.{
  state_step, state_round, poll_state, wait_path, wait_for_machine,
}
use turnfly.FlyDeploy.Polling.{Ticks, Agree, IsPaced, pause-IsPaced, poll_enough}
use turnfly.FlyDeploy.Polling.Rules.{Ends, pause-Ends, poll-Ends}

-- How the poll ends, in the last trace and with its result: the last answer of the API, which is a
-- machine in the state that is waited for, or the deadline, or a context that is done.
pub data Outcome (world : World) (c : Client) (path id target : Bytes) (deadline : ℕ)
    : Trace × Result FlyError Unit → Type 0 where
  reached :
      (t u : Trace) (m : Machine)
      → do_request world c method_get path no_body world.decode_machine t ≡ (u, ok m)
      → equal_fold m.state target ≡ true
      → Outcome world c path id target deadline (u, ok tt)
  late :
      (u : Trace)
      → deadline ≤ world.clock u
      → Outcome world c path id target deadline (u, err (not_reached id target))
  cancelled :
      (u : Trace) (n : ℕ)
      → world.interrupt u (5 * second) ≡ some n
      → Outcome world c path id target deadline (slept n ∷ u, err context_done)

module _ (world : World) (escape : Bytes → Bytes) (ticks : Ticks world) where
  state_step_cong :
      (fuel deadline : ℕ) (target : Bytes) (next next' : Call Unit)
      (r : Trace × Result FlyError Machine)
      → deadline ≤ world.clock r.0 + (fuel + 1) * (5 * second)
      → Agree world (5 * second) deadline fuel next next'
      → state_step world escape target next r ≡ state_step world escape target next' r
  unfolding state_step
  state_step_cong fuel deadline target next next' (t, err e) h same =
      pause-IsPaced world ticks (5 * second) fuel deadline next next' t h same
  state_step_cong fuel deadline target next next' (t, ok m) h same =
      ground (arith, pause-IsPaced world ticks (5 * second) fuel deadline next next' t h same)

  wait_for_machine_wet :
      (c : Client) (app id target : Bytes) (timeout : ℕ) (t : Trace)
      → c.dry_run ≡ false
      → wait_for_machine world escape c app id target timeout t
        ≡ poll_state world escape
            (timeout / (5 * second) + 1)
            c
            (wait_path world escape app id target timeout)
            id
            target
            (world.clock t + timeout)
            t
  unfolding wait_for_machine
  wait_for_machine_wet c app id target timeout t wet =
      ap
        (λ dry.
          if dry
          then (t, ok tt)
          else poll_state world escape (timeout / (5 * second) + 1) c
              (wait_path world escape app id target timeout) id target (world.clock t + timeout) t)
        wet

  asked_clock :
      (c : Client) (path : Bytes) (t : Trace)
      → world.clock t
        ≤ world.clock (do_request world c method_get path no_body world.decode_machine t).0
  unfolding do_request
  asked_clock c path t = ticks.sending t (request_of c method_get path no_body)

  state_round-IsPaced :
      (c : Client) (path target : Bytes)
      → IsPaced world (5 * second) (state_round world escape c path target)
  state_round-IsPaced c path target fuel deadline next next' t h same =
      state_step_cong fuel deadline target next next'
        (do_request world c method_get path no_body world.decode_machine t)
        (omega (arith, asked_clock c path t)) same

  -- The fuel of `WaitForMachine` is enough: with any more of it the poll goes the same way, to
  -- the same result.
  pub wait_for_machine_ends :
      (fuel : ℕ) (c : Client) (app id target : Bytes) (timeout : ℕ) (t : Trace)
      → c.dry_run ≡ false
      → timeout / (5 * second) < fuel
      → poll_state world escape fuel c
          (wait_path world escape app id target timeout)
          id
          target
          (world.clock t + timeout)
          t
        ≡ wait_for_machine world escape c app id target timeout t
  wait_for_machine_ends fuel c app id target timeout t wet h =
      let path = wait_path world escape app id target timeout in
      poll_enough world ticks (5 * second) (state_round world escape c path target)
        (state_round-IsPaced c path target) (not_reached id target) (timeout / (5 * second) + 1)
        fuel (world.clock t + timeout) t (omega arith) (omega arith)
      ∙ sym (wait_for_machine_wet c app id target timeout t wet)

  step_outcome :
      (c : Client) (path id target : Bytes) (deadline : ℕ) (next : Call Unit) (fuel : ℕ) (t : Trace)
      (r : Trace × Result FlyError Machine)
      → do_request world c method_get path no_body world.decode_machine t ≡ r
      → deadline ≤ world.clock r.0 + (fuel + 1) * (5 * second)
      → Ends world ticks (5 * second) deadline (Outcome world c path id target deadline) fuel next
      → Outcome world c path id target deadline (state_step world escape target next r)
  unfolding state_step
  step_outcome c path id target deadline next fuel t (u, err e) asked h rest =
      pause-Ends world ticks (5 * second) deadline (Outcome world c path id target deadline)
        cancelled next fuel u h rest
  step_outcome c path id target deadline next fuel t (u, ok m) asked h rest =
      elim (Bool-cases (equal_fold m.state target)) [
        | inl e ↦ rw (e, state_step) (reached t u m asked e)
        | inr e ↦
            rw (e, state_step)
              (pause-Ends world ticks (5 * second) deadline
                (Outcome world c path id target deadline) cancelled next fuel u h rest)
      ]

  -- Outside a dry run, with a clock that does not run backwards and that a sleep moves on by at
  -- least its duration, WaitForMachine returns: it succeeds only behind an answer with a machine
  -- in the wanted state, in any case, it fails with its own error only behind the deadline, and
  -- with the error of the context only when this is done.
  pub wait_for_machine_outcome :
      (c : Client) (app id target : Bytes) (timeout : ℕ) (t : Trace)
      → c.dry_run ≡ false
      → Outcome world c
          (wait_path world escape app id target timeout)
          id
          target
          (world.clock t + timeout)
          (wait_for_machine world escape c app id target timeout t)
  wait_for_machine_outcome c app id target timeout t wet =
      let path = wait_path world escape app id target timeout in
      let deadline = world.clock t + timeout in
      rw (wait_for_machine_wet c app id target timeout t wet) (
        poll-Ends world ticks (5 * second) deadline (Outcome world c path id target deadline)
          (state_round world escape c path target) (not_reached id target) late
          (λ next fuel u h rest.
            step_outcome c path id target deadline next fuel u
              (do_request world c method_get path no_body world.decode_machine u) refl
              (omega (arith, asked_clock c path u)) rest)
          (timeout / (5 * second) + 1) t (omega arith))
