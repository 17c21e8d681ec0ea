-- ===== src/Health.antt =====
-- internal/health/health.go: the registered checks, the aggregate status, and the two endpoints.
pub mod Checks
pub mod Overlapping
mod Tests
use turnfly.Prelude.{
  ◌≡◌, Bool, true, false, not, Option, none, some, List, [], ◌∷◌, ◌&&◌, if◌then◌else◌, ℕ,
}
use turnfly.Text.{Bytes, codes, beq}
use turnfly.Map
use turnfly.Map.{Map}

-- `Status` is a string: one of the three constants, or another text, the empty one included.
pub data Status : Type 0 where
  healthy : Status
  degraded : Status
  unhealthy : Status
  other : Bytes → Status

abbrev pub is_unhealthy : Status → Bool
is_unhealthy unhealthy = true
is_unhealthy _ = false

abbrev pub is_degraded : Status → Bool
is_degraded degraded = true
is_degraded _ = false

abbrev pub is_healthy : Status → Bool
is_healthy healthy = true
is_healthy _ = false

abbrev pub is_unset : Status → Bool
is_unset (other []) = true
is_unset _ = false

-- A check reads the state of the program, `W`, and reports a status and a message.
abbrev pub Checker : Type 0 → Type 0
Checker W = W → Status × Bytes

pub record Service (W : Type 0) : Type 0 where
  pub checks : Map (Checker W)
  pub status : Status

pub record Response : Type 0 where
  pub code : ℕ
  pub body : Option (Status × Map Bytes)

-- The aggregate status behind one more report.
abbrev pub combine : Status → Status → Status
combine overall status =
    if is_unhealthy status
    then unhealthy
    else if is_degraded status && is_healthy overall
    then degraded
    else overall

abbrev pub status_code : Status → ℕ
status_code status = if is_unhealthy status then 503 else 200

module _ {W : Type 0} where
  -- `NewService`
  unfoldable pub new_service : Service W
  new_service = record { checks = Map.empty; status = other [] }

  -- `(*Service).Register`
  unfoldable pub register : Service W → Bytes → Checker W → Service W
  register s name check = record s { checks = Map.put s.checks name check }

  -- `(*Service).GetStatus`
  unfoldable pub get_status : Service W → Status
  get_status s = if is_unset s.status then healthy else s.status

  -- The loop of `RunChecks` over the checks that are left.
  unfoldable pub check_loop : W → List (Bytes × Checker W) → Map Bytes → Status → Map Bytes × Status
  check_loop w [] results overall = (results, overall)
  check_loop w ((name, check) ∷ rest) results overall =
      check_loop w rest (Map.put results name (check w).1) (combine overall (check w).0)

  -- `(*Service).RunChecks`
  unfoldable pub run_checks : W → Service W → Service W × Map Bytes
  run_checks w s =
      let (results, overall) = check_loop w s.checks.entries Map.empty healthy in
      (record s { status = overall }, results)

  -- `(*Service).Handler`: GET /healthz.
  unfoldable pub healthz : W → Bytes → Service W → Service W × Response
  healthz w method s =
      if not (beq method (codes "GET"))
      then (s, record { code = 405; body = none })
      else let (s', results) = run_checks w s in
        let status = get_status s' in
        (s', record { code = status_code status; body = some (status, results) })

  -- `(*Service).ReadyzHandler`: GET /readyz, which reports the status of the last run.
  unfoldable pub readyz : Bytes → Service W → ℕ × Option Status
  readyz method s =
      if not (beq method (codes "GET"))
      then (405, none)
      else (status_code (get_status s), some (get_status s))
