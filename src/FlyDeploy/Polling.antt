-- ===== src/FlyDeploy/Polling.antt =====
-- The polling loop ends, and `waitForHealthy` with it: a fuel that lasts until the deadline is
-- enough.
pub mod Health
pub mod Rules
pub mod State
use turnfly.Prelude.{
  ℕ, zero, suc, ◌+◌, ◌*◌, ◌/◌, ◌≤◌, ◌<◌, ◌≡◌, refl, sym, ◌∙◌, Bool, true, false, ◌∷◌, if◌then◌else◌,
  arith, ltb, inl, inr, Bool-cases, Option-cases,
}
use turnfly.Result.{Result, ok, err}
use turnfly.Clock.{second}
use turnfly.Text.{Bytes}
use turnfly.FlyDeploy.Types.{FlyError, timed_out, Machine}
use turnfly.FlyDeploy.Requests.{call_trace}
use turnfly.FlyDeploy.Transport.{
  Trace, Request, sent, slept, World, Client, Call, request_of, machine_path, method_get, no_body,
}
use turnfly.FlyDeploy.Client.{get_machine}
use turnfly.FlyDeploy.Waiting.{poll_step, health_round, poll_health, wait_for_healthy}
use turnfly.FlyDeploy.Poll.{pause, poll}

-- A clock that does not run backwards and that a sleep moves on by at least its duration.
pub record Ticks (world : World) : Type 0 where
  pub sending : (t : Trace) (r : Request) → world.clock t ≤ world.clock (sent r ∷ t)
  pub sleeping : (t : Trace) (n : ℕ) → world.clock t + n ≤ world.clock (slept n ∷ t)

-- Two ways to go on agree wherever `fuel` periods last until the deadline.
abbrev pub Agree : World → ℕ → ℕ → ℕ → Call Unit → Call Unit → Type 0
Agree world period deadline fuel next next' =
    (u : Trace) → deadline ≤ world.clock u + fuel * period → next u ≡ next' u

-- A round spends a period before it goes on.
abbrev pub IsPaced : World → ℕ → (Call Unit → Call Unit) → Type 0
IsPaced world period round =
    (fuel deadline : ℕ) (next next' : Call Unit) (t : Trace)
    → deadline ≤ world.clock t + (fuel + 1) * period
    → Agree world period deadline fuel next next'
    → round next t ≡ round next' t

module _ (world : World) (ticks : Ticks world) where
  pub request_clock :
      (dry : Bool) (r : Request) (t : Trace)
      → world.clock t ≤ world.clock (if dry then t else sent r ∷ t)
  request_clock true r t = omega arith
  request_clock false r t = ticks.sending t r

  pub pause-IsPaced : (period : ℕ) → IsPaced world period (pause world period)
  unfolding pause
  pause-IsPaced period fuel deadline next next' t h same =
      elim (Option-cases (world.interrupt t period)) [
        | inr (n, e) ↦ rw (e, pause) refl
        | inl e ↦ rw (e, pause) (same (slept period ∷ t) (omega (arith, ticks.sleeping t period)))
      ]

  module _ (period : ℕ) (round : Call Unit → Call Unit) (paced : IsPaced world period round)
      (late : FlyError) where
    poll_late :
        (fuel deadline : ℕ) (t : Trace)
        → deadline ≤ world.clock t
        → poll world round late fuel deadline t ≡ (t, err late)
    unfolding poll
    poll_late zero deadline t h = refl
    poll_late (suc fuel) deadline t h = rw (not_before (world.clock t) deadline h, poll) refl
      where
        not_before : (a b : ℕ) → b ≤ a → ltb a b ≡ false
        not_before a b h = ground arith

    poll_round :
        (fuel deadline : ℕ) (t : Trace)
        → ltb (world.clock t) deadline ≡ true
        → poll world round late (suc fuel) deadline t
          ≡ round (poll world round late fuel deadline) t
    unfolding poll
    poll_round fuel deadline t e = rw (e, poll) refl

    -- More fuel changes nothing once the fuel lasts until the deadline.
    pub poll_enough :
        (fuel more deadline : ℕ) (t : Trace)
        → fuel ≤ more
        → deadline ≤ world.clock t + fuel * period
        → poll world round late more deadline t ≡ poll world round late fuel deadline t
    poll_enough zero more deadline t l h =
        poll_late more deadline t (omega arith) ∙ sym (poll_late zero deadline t (omega arith))
    poll_enough (suc fuel) zero deadline t l h = absurd (omega arith)
    poll_enough (suc fuel) (suc more) deadline t l h =
        elim (Bool-cases (ltb (world.clock t) deadline)) [
          | inl e ↦
              poll_round more deadline t e
              ∙ paced fuel deadline (poll world round late more deadline)
                  (poll world round late fuel deadline) t (omega arith)
                  (λ u g. poll_enough fuel more deadline u (omega arith) g)
              ∙ sym (poll_round fuel deadline t e)
          | inr e ↦
              let passed : deadline ≤ world.clock t = ground (arith, e) in
              poll_late (suc more) deadline t passed ∙ sym (poll_late (suc fuel) deadline t passed)
        ]

  pub get_machine-clock :
      (c : Client) (app id : Bytes) (t : Trace)
      → world.clock t ≤ world.clock (get_machine world c app id t).0
  unfolding get_machine
  get_machine-clock c app id t =
      rw (call_trace world c.dry_run _ _ c _ _ _ _ t)
        (request_clock c.dry_run (request_of c method_get (machine_path app id) no_body) t)

  poll_step_cong :
      (fuel deadline : ℕ) (id : Bytes) (next next' : Call Unit)
      (r : Trace × Result FlyError Machine)
      → deadline ≤ world.clock r.0 + (fuel + 1) * (10 * second)
      → Agree world (10 * second) deadline fuel next next'
      → poll_step world id next r ≡ poll_step world id next' r
  unfolding poll_step
  poll_step_cong fuel deadline id next next' (t, err e) h same =
      pause-IsPaced (10 * second) fuel deadline next next' t h same
  poll_step_cong fuel deadline id next next' (t, ok m) h same =
      ground (arith, pause-IsPaced (10 * second) fuel deadline next next' t h same)

  -- The fuel of `waitForHealthy` is enough: with any more of it the poll goes the same way, to the
  -- same result.
  pub wait_for_healthy_ends :
      (fuel : ℕ) (c : Client) (app id : Bytes) (timeout : ℕ) (t : Trace)
      → timeout / (10 * second) < fuel
      → poll_health world fuel c app id (world.clock t + timeout) t
        ≡ wait_for_healthy world c app id timeout t
  unfolding wait_for_healthy
  wait_for_healthy_ends fuel c app id timeout t h =
      poll_enough (10 * second) (health_round world c app id)
        (λ f d next next' u g same.
          poll_step_cong f d id next next' (get_machine world c app id u)
            (omega (arith, get_machine-clock c app id u)) same)
        (timed_out id) (timeout / (10 * second) + 1) fuel (world.clock t + timeout) t (omega arith)
        (omega arith)
