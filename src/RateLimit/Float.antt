-- ===== src/RateLimit/Float.antt =====
-- Go's float64, which the limiter counts tokens in, behind laws of IEEE 754 arithmetic. `le` and
-- `lt` are false at a NaN.
use turnfly.Prelude.{ℕ, ◌+◌, ◌^◌, ◌≤◌, ◌≡◌, Bool, true, false, leb}
use turnfly.Int.{ℤ, pos}

pub record Float64 : Type 1 where
  pub F : Type 0
  -- `float64(n)`
  pub of_int : ℤ → F
  pub add : F → F → F
  pub sub : F → F → F
  pub mul : F → F → F
  pub lt : F → F → Bool
  pub le : F → F → Bool
  -- Neither an infinity nor a NaN.
  pub finite : F → Bool
  -- `time.Duration.Seconds`, of nanoseconds.
  pub seconds : ℕ → F
  -- Integers up to 2 ^ 53 are exact.
  pub le_exact :
      (m n : ℕ) → m ≤ 2 ^ 53 → n ≤ 2 ^ 53 → le (of_int (pos m)) (of_int (pos n)) ≡ leb m n
  pub lt_exact : (m n : ℕ) → m ≤ n → n ≤ 2 ^ 53 → lt (of_int (pos n)) (of_int (pos m)) ≡ false
  pub pred_exact :
      (n : ℕ) → n + 1 ≤ 2 ^ 53 → sub (of_int (pos (n + 1))) (of_int (pos 1)) ≡ of_int (pos n)
  pub le_one : (n : ℕ) → 1 ≤ n → le (of_int (pos 1)) (of_int (pos n)) ≡ true
  -- No time gives no tokens.
  pub no_time : (t : ℤ) (r : F) → finite r ≡ true → add (of_int t) (mul (seconds 0) r) ≡ of_int t
  pub zero_le_mul :
      (d : ℕ) (r : F)
      → finite r ≡ true
      → le (of_int (pos 0)) r ≡ true
      → le (of_int (pos 0)) (mul (seconds d) r) ≡ true
  pub zero_le_add :
      (a b : F)
      → le (of_int (pos 0)) a ≡ true
      → le (of_int (pos 0)) b ≡ true
      → le (of_int (pos 0)) (add a b) ≡ true
  pub one_le_add :
      (a b : F)
      → le (of_int (pos 0)) a ≡ true
      → le (of_int (pos 1)) b ≡ true
      → le (of_int (pos 1)) (add a b) ≡ true
  pub zero_le_of_one_le : (a : F) → le (of_int (pos 1)) a ≡ true → le (of_int (pos 0)) a ≡ true
  pub zero_le_pred :
      (a : F) → le (of_int (pos 1)) a ≡ true → le (of_int (pos 0)) (sub a (of_int (pos 1))) ≡ true
  pub pred_le : (a b : F) → le a b ≡ true → le (sub a (of_int (pos 1))) b ≡ true
  pub le_self : (a : F) → le (of_int (pos 0)) a ≡ true → le a a ≡ true
  pub le_of_not_lt :
      (a b : F)
      → le (of_int (pos 0)) a ≡ true
      → le (of_int (pos 0)) b ≡ true
      → lt b a ≡ false
      → le a b ≡ true
