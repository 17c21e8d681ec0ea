-- ===== src/FlyDeploy/Polling/Rules.antt =====
-- How the polling loop is shown to end with a property of its result.
use turnfly.Prelude.{
  ℕ, zero, suc, ◌+◌, ◌*◌, ◌≤◌, ◌≡◌, ◌∷◌, arith, ltb, inl, inr, Bool-cases, Option-cases, some,
}
use turnfly.Result.{Result, err}
use turnfly.FlyDeploy.Types.{FlyError, context_done}
use turnfly.FlyDeploy.Transport.{Trace, slept, World, Call}
use turnfly.FlyDeploy.Poll.{pause, poll}
use turnfly.FlyDeploy.Polling.{Ticks}

module _ (world : World) (ticks : Ticks world) (period deadline : ℕ)
    (P : Trace × Result FlyError Unit → Type 0) where
  -- The rest of the loop ends as it should wherever `fuel` periods last until the deadline.
  abbrev pub Ends : ℕ → Call Unit → Type 0
  Ends fuel next = (u : Trace) → deadline ≤ world.clock u + fuel * period → P (next u)

  pub pause-Ends :
      ((u : Trace) (n : ℕ) → world.interrupt u period ≡ some n → P (slept n ∷ u, err context_done))
      → (next : Call Unit) (fuel : ℕ) (u : Trace) → deadline ≤ world.clock u + (fuel + 1) * period
      → Ends fuel next
      → P (pause world period next u)
  unfolding pause
  pause-Ends cancelled next fuel u h rest = elim (Option-cases (world.interrupt u period)) [
    | inr (n, e) ↦ rw (e, pause) (cancelled u n e)
    | inl e ↦ rw (e, pause) (rest (slept period ∷ u) (omega (arith, ticks.sleeping u period)))
  ]

  pub poll-Ends :
      (round : Call Unit → Call Unit) (late : FlyError)
      → ((u : Trace) → deadline ≤ world.clock u → P (u, err late))
      → ((next : Call Unit) (fuel : ℕ) (t : Trace)
          → deadline ≤ world.clock t + (fuel + 1) * period
          → Ends fuel next
          → P (round next t))
      → (fuel : ℕ) → Ends fuel (poll world round late fuel deadline)
  unfolding poll
  poll-Ends round late passed goes zero t h = passed t (omega arith)
  poll-Ends round late passed goes (suc fuel) t h =
      elim (Bool-cases (ltb (world.clock t) deadline)) [
        | inl e ↦
            rw (e, poll)
              (goes (poll world round late fuel deadline) fuel t (omega arith)
                (poll-Ends round late passed goes fuel))
        | inr e ↦ rw (e, poll) (passed t (ground (arith, e)))
      ]
