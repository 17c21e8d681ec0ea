-- ===== src/RateLimit/Bursts.antt =====
-- The requests that the limiter grants at one instant.
use turnfly.Prelude.{
  ℕ, min, leb, ◌+◌, ◌-◌, ◌*◌, ◌^◌, ◌≤◌, ◌≡◌, refl, ◌∙◌, sym, ap, subst, leb→le, true, ◌&&◌, Option,
  none, some, List, [], ◌∷◌, inl, inr, Bool-cases, arith, if◌then◌else◌,
}
use turnfly.Int.{pos}
use turnfly.Text.{Bytes, beq, beq_iff}
use turnfly.Clock.{since, minute}
use turnfly.Map
use turnfly.Map.{Map}
use turnfly.Map.Laws.{get-empty, get-put}
use turnfly.RateLimit.{
  Float64, Bucket, Limiter, Readings, new_limiter, maybe_cleanup, refill_bucket, draw_token,
  take_token, allow,
}

-- All readings of the clock in one call fall on one instant.
abbrev pub instant : ℕ → Readings
instant t = record { cleanup_check = t; cleanup_mark = t; cutoff_base = t; refill = t; mark = t }

pub occurrences : Bytes → List Bytes → ℕ
occurrences k [] = 0
occurrences k (j ∷ js) = (if beq j k then 1 else 0) + occurrences k js

pub since_self : (t : ℕ) → since t t ≡ 0
unfolding since
since_self t = omega arith

module _ (f : Float64) where
  open f use {
    F, of_int, add, sub, mul, lt, le, finite, seconds, le_exact, lt_exact, pred_exact, no_time,
  }

  -- How many of the requests of `key` are granted among those of all keys, in their order.
  pub granted_at : Limiter f → ℕ → Bytes → List Bytes → ℕ
  granted_at l t key [] = 0
  granted_at l t key (j ∷ js) =
      let (l', granted) = allow f l j (instant t) in
      (if beq j key && granted then 1 else 0) + granted_at l' t key js

  -- A limiter at the instant at which it last cleaned up.
  record IsAt (l : Limiter f) (t n : ℕ) : Type 0 where
    cleaned : l.last_cleanup ≡ t
    interval : l.cleanup_interval ≡ 5 * minute
    burst_is : l.burst ≡ pos n
    finite_rate : finite l.rate ≡ true

  -- What a key can still take at the instant.
  abbrev Holds : ℕ → ℕ → Option (Bucket f) → ℕ → Type 0
  Holds t n none m = n ≡ m
  Holds t n (some b) m = (b.tokens ≡ of_int (pos m)) × (b.last_check ≡ t) × (m ≤ n)

  module _ (l : Limiter f) (t n : ℕ) (some_burst : 1 ≤ n) (small : n ≤ 2 ^ 53)
      (h : IsAt l t n) where
    no_cleanup : maybe_cleanup f l (instant t) ≡ l
    unfolding maybe_cleanup
    no_cleanup = rw (h.cleaned, h.interval, since_self t)

    refill_same :
        (b : Bucket f) (m : ℕ)
        → Holds t n (some b) m
        → refill_bucket f l b (instant t) ≡ of_int (pos m)
    unfolding refill_bucket
    refill_same b m (tokens, last, fits) = rw (
      last,
      since_self t,
      tokens,
      h.burst_is,
      no_time (pos m) l.rate h.finite_rate,
      lt_exact m n fits small,
    )

    one_fewer :
        (m : ℕ) → 1 ≤ m → m ≤ n → sub (of_int (pos m)) (of_int (pos 1)) ≡ of_int (pos (m - 1))
    one_fewer m some_left fits =
        let e : m - 1 + 1 ≡ m = omega arith in
        subst (λ k. sub (of_int (pos k)) (of_int (pos 1)) ≡ of_int (pos (m - 1))) e
          (pred_exact (m - 1) (omega arith))

    draw_token_lem :
        (o : Option (Bucket f)) (m : ℕ)
        → Holds t n o m
        → ((draw_token f l (instant t) o).1 ≡ leb 1 m)
          × Holds t n (some (draw_token f l (instant t) o).0) (m - 1)
    unfolding draw_token
    draw_token_lem none m e = (
      ground arith,
      (
        rw h.burst_is (one_fewer n some_burst (omega arith) ∙ ap (λ k. of_int (pos (k - 1))) e),
        refl,
        omega arith,
      ),
    )
    draw_token_lem (some b) m held =
        let test : le (of_int (pos 1)) (of_int (pos m)) ≡ leb 1 m =
          le_exact 1 m (omega arith) (omega arith) in
        elim (Bool-cases (leb 1 m)) [
          | inl e ↦
              rw (refill_same b m held, test, e)
                (refl, (one_fewer m (leb→le 1 m e) held.2, refl, omega arith))
          | inr e ↦
              rw (refill_same b m held, test, e)
                (refl, (ap (λ k. of_int (pos k)) (ground arith), refl, omega arith))
        ]

    -- Behind a request the limiter still stands at the instant.
    allow-IsAt : (key : Bytes) → IsAt (allow f l key (instant t)).0 t n
    unfolding allow take_token
    allow-IsAt key = rw no_cleanup (record {
      cleaned = h.cleaned;
      interval = h.interval;
      burst_is = h.burst_is;
      finite_rate = h.finite_rate;
    })

    allow_lem :
        (j k : Bytes) (m : ℕ)
        → Holds t n (Map.get l.buckets k) m
        → ((beq j k && (allow f l j (instant t)).1) ≡ (beq j k && leb 1 m))
          × Holds t n (Map.get (allow f l j (instant t)).0.buckets k) (if beq j k then m - 1 else m)
    unfolding allow take_token
    allow_lem j k m held =
        let drawn = (draw_token f l (instant t) (Map.get l.buckets j)).0 in
        elim (Bool-cases (beq j k)) [
          | inl e ↦
              let same : j ≡ k = (beq_iff j k).0 e in
              let held' = subst (λ i. Holds t n (Map.get l.buckets i) m) (sym same) held in
              rw (no_cleanup, get-put l.buckets j k drawn, e)
                (draw_token_lem (Map.get l.buckets j) m held')
          | inr e ↦ rw (no_cleanup, get-put l.buckets j k drawn, e) (refl, held)
        ]

  granted_at_lem :
      (t n : ℕ) (key : Bytes) (js : List Bytes) (l : Limiter f) (m : ℕ)
      → 1 ≤ n
      → n ≤ 2 ^ 53
      → IsAt l t n
      → Holds t n (Map.get l.buckets key) m
      → granted_at l t key js ≡ min m (occurrences key js)
  unfolding granted_at occurrences
  granted_at_lem t n key [] l m some_burst small h held = omega arith
  granted_at_lem t n key (j ∷ js) l m some_burst small h held =
      let (test, held') = allow_lem l t n some_burst small h j key m held in
      let rest =
        granted_at_lem t n key js (allow f l j (instant t)).0 (if beq j key then m - 1 else m)
          some_burst small (allow-IsAt l t n some_burst small h j) held' in
      rw (test, rest) (ground arith)

  -- Of the requests of all clients at the instant at which a limiter was made, whatever their
  -- order, each client is granted as many as the burst says, and all of its own if these are
  -- fewer. The burst is at least 1 and at most 2 ^ 53, up to which float64 counts exactly, and the
  -- rate is finite.
  pub granted_at-new_limiter :
      (rate : F) (n t : ℕ) (key : Bytes) (js : List Bytes)
      → finite rate ≡ true
      → 1 ≤ n
      → n ≤ 2 ^ 53
      → granted_at (new_limiter f rate (pos n) t) t key js ≡ min n (occurrences key js)
  unfolding new_limiter
  granted_at-new_limiter rate n t key js r some_burst small =
      granted_at_lem t n key js (new_limiter f rate (pos n) t) n some_burst small
        (record { cleaned = refl; interval = refl; burst_is = refl; finite_rate = r })
        (rw (get-empty {V = Bucket f} key) refl)
