-- ===== src/FlyDeploy/Poll.antt =====
-- The loop that `waitForHealthy` (internal/flydeploy/deployer.go) and `WaitForMachine`
-- (internal/flydeploy/client.go) share: rounds up to a deadline, with a pause between them.
use turnfly.Prelude.{ℕ, zero, suc, none, some, true, false, ◌∷◌, ltb}
use turnfly.Result.{err}
use turnfly.FlyDeploy.Types.{FlyError, context_done}
use turnfly.FlyDeploy.Transport.{Call, slept, World}

module _ (world : World) where
  -- `select { case <-ctx.Done(): return ctx.Err(); case <-time.After(period): }`
  unfoldable pub pause : ℕ → Call Unit → Call Unit
  pause period next t = elim (world.interrupt t period) [
    | none ↦ next (slept period ∷ t)
    | some n ↦ (slept n ∷ t, err context_done)
  ]

  -- `for time.Now().Before(deadline) { ... }` and the error behind it. A round is what it does,
  -- given the rest of the loop; `fuel` bounds the rounds.
  unfoldable pub poll : (Call Unit → Call Unit) → FlyError → ℕ → ℕ → Call Unit
  poll round late zero deadline t = (t, err late)
  poll round late (suc fuel) deadline t = elim (ltb (world.clock t) deadline) [
    | false ↦ (t, err late)
    | true ↦ round (poll round late fuel deadline) t
  ]
