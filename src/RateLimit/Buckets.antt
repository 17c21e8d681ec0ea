-- ===== src/RateLimit/Buckets.antt =====
-- The buckets of the limiter hold between no token and the burst.
use turnfly.Prelude.{
  ℕ, ltb, ◌*◌, ◌≤◌, ◌≡◌, refl, Bool, true, Option, none, some, List, [], ◌∷◌, inl, inr, Bool-cases,
}
use turnfly.Int.{ℤ, pos}
use turnfly.Text.{Bytes, beq}
use turnfly.Clock.{since}
use turnfly.Map
use turnfly.Map.{Map, IsMap}
use turnfly.Map.Laws.{get-empty, get-put, get-erase, empty-IsMap, put-IsMap, erase-IsMap}
use turnfly.Map.Deletion.{surviving, delete_where-get, delete_where-IsMap}
use turnfly.RateLimit.{
  Float64, Bucket, Limiter, Readings, new_limiter, is_stale, maybe_cleanup, refill_bucket,
  draw_token, take_token, allow, reset,
}

-- An operation of the limiter.
pub data Operation : Type 0 where
  requested : Bytes → Readings → Operation
  cleared : Bytes → Operation

module _ (f : Float64) where
  open f use {
    F, of_int, add, sub, mul, lt, le, finite, seconds, le_one, zero_le_mul, zero_le_add,
    zero_le_of_one_le, zero_le_pred, pred_le, le_self, le_of_not_lt,
  }

  abbrev pub InRange : ℤ → Option (Bucket f) → Type 0
  InRange burst none = Unit
  InRange burst (some b) =
      (le (of_int (pos 0)) b.tokens ≡ true) × (le b.tokens (of_int burst) ≡ true)

  -- A limiter with a rate that is a number, a burst of one at least, and filled in range.
  pub record IsLimited (l : Limiter f) : Type 0 where
    pub distinct : IsMap l.buckets
    pub finite_rate : finite l.rate ≡ true
    pub rate_sign : le (of_int (pos 0)) l.rate ≡ true
    pub capacity : ℕ
    pub some_capacity : 1 ≤ capacity
    pub burst_is : l.burst ≡ pos capacity
    pub in_range : (key : Bytes) → InRange l.burst (Map.get l.buckets key)

  unfoldable pub run : Limiter f → List Operation → Limiter f
  run l [] = l
  run l (requested key now ∷ ops) = run (allow f l key now).0 ops
  run l (cleared key ∷ ops) = run (reset f l key) ops

  surviving-InRange :
      (burst : ℤ) (drop : Bucket f → Bool) (o : Option (Bucket f))
      → InRange burst o
      → InRange burst (surviving drop o)
  surviving-InRange burst drop none h = tt
  surviving-InRange burst drop (some b) h = elim (Bool-cases (drop b)) [
    | inl e ↦ rw e tt
    | inr e ↦ rw e h
  ]

  put-InRange :
      (burst : ℤ) (m : Map (Bucket f)) (k : Bytes) (b : Bucket f)
      → InRange burst (some b)
      → ((j : Bytes) → InRange burst (Map.get m j))
      → (j : Bytes) → InRange burst (Map.get (Map.put m k b) j)
  put-InRange burst m k b new old j =
      rw (get-put m k j b) (elim (Bool-cases (beq k j)) [ inl e ↦ rw e new | inr e ↦ rw e (old j) ])

  pub new_limiter-IsLimited :
      (rate : F) (n now : ℕ)
      → finite rate ≡ true
      → le (of_int (pos 0)) rate ≡ true
      → 1 ≤ n
      → IsLimited (new_limiter f rate (pos n) now)
  unfolding new_limiter
  new_limiter-IsLimited rate n now r s h = record {
    distinct = empty-IsMap;
    finite_rate = r;
    rate_sign = s;
    capacity = n;
    some_capacity = h;
    burst_is = refl;
    in_range = λ key. rw (get-empty {V = Bucket f} key) tt;
  }

  -- What the operations leave as it is.
  with_buckets :
      (l : Limiter f) (m : Map (Bucket f)) (t : ℕ)
      → IsLimited l
      → IsMap m
      → ((key : Bytes) → InRange l.burst (Map.get m key))
      → IsLimited (record l { buckets = m; last_cleanup = t })
  with_buckets l m t h d r = record {
    distinct = d;
    finite_rate = h.finite_rate;
    rate_sign = h.rate_sign;
    capacity = h.capacity;
    some_capacity = h.some_capacity;
    burst_is = h.burst_is;
    in_range = r;
  }

  pub reset-IsLimited : (l : Limiter f) (key : Bytes) → IsLimited l → IsLimited (reset f l key)
  unfolding reset
  reset-IsLimited l key h =
      with_buckets l (Map.erase l.buckets key) l.last_cleanup h
        (erase-IsMap l.buckets key h.distinct)
        λ j.
          rw (get-erase l.buckets key j)
            (elim (Bool-cases (beq key j)) [ inl e ↦ rw e tt | inr e ↦ rw e (h.in_range j) ])

  pub maybe_cleanup-IsLimited :
      (l : Limiter f) (now : Readings) → IsLimited l → IsLimited (maybe_cleanup f l now)
  unfolding maybe_cleanup
  maybe_cleanup-IsLimited l now h =
      let stale = is_stale f now.cutoff_base (2 * l.cleanup_interval) in
      elim (Bool-cases (ltb (since now.cleanup_check l.last_cleanup) l.cleanup_interval)) [
        | inl e ↦ rw e h
        | inr e ↦ rw e (
            with_buckets l (Map.delete_where stale l.buckets).0 now.cleanup_mark h
              (delete_where-IsMap stale l.buckets h.distinct)
              λ j.
                rw (delete_where-get stale l.buckets j h.distinct)
                  (surviving-InRange l.burst stale (Map.get l.buckets j) (h.in_range j)))
      ]

  module _ (l : Limiter f) (h : IsLimited l) where
    pub one_le_burst : le (of_int (pos 1)) (of_int l.burst) ≡ true
    one_le_burst = rw h.burst_is (le_one h.capacity h.some_capacity)

    zero_le_burst : le (of_int (pos 0)) (of_int l.burst) ≡ true
    zero_le_burst = zero_le_of_one_le (of_int l.burst) one_le_burst

    pub refill_bucket-InRange :
        (b : Bucket f) (now : Readings)
        → InRange l.burst (some b)
        → (le (of_int (pos 0)) (refill_bucket f l b now) ≡ true)
          × (le (refill_bucket f l b now) (of_int l.burst) ≡ true)
    unfolding refill_bucket
    refill_bucket-InRange b now r =
        let gained = mul (seconds (since now.refill b.last_check)) l.rate in
        let filled = add b.tokens gained in
        let enough : le (of_int (pos 0)) filled ≡ true =
          zero_le_add b.tokens gained r.0
            (zero_le_mul (since now.refill b.last_check) l.rate h.finite_rate h.rate_sign) in
        elim (Bool-cases (lt (of_int l.burst) filled)) [
          | inl e ↦ rw e (zero_le_burst, le_self (of_int l.burst) zero_le_burst)
          | inr e ↦ rw e (enough, le_of_not_lt filled (of_int l.burst) enough zero_le_burst e)
        ]

    pred-InRange :
        (t : F) (at : ℕ)
        → le (of_int (pos 1)) t ≡ true
        → le t (of_int l.burst) ≡ true
        → InRange l.burst (some (record { tokens = sub t (of_int (pos 1)); last_check = at }))
    pred-InRange t at some_token below =
        (zero_le_pred t some_token, pred_le t (of_int l.burst) below)

    draw_token-InRange :
        (now : Readings) (o : Option (Bucket f))
        → InRange l.burst o
        → InRange l.burst (some (draw_token f l now o).0)
    unfolding draw_token
    draw_token-InRange now none r =
        pred-InRange (of_int l.burst) now.mark one_le_burst (le_self (of_int l.burst) zero_le_burst)
    draw_token-InRange now (some b) r =
        let filled = refill_bucket f l b now in
        let bounds = refill_bucket-InRange b now r in
        elim (Bool-cases (le (of_int (pos 1)) filled)) [
          | inl e ↦ rw e (pred-InRange filled now.mark e bounds.1)
          | inr e ↦ rw e bounds
        ]

    take_token-IsLimited : (key : Bytes) (now : Readings) → IsLimited (take_token f l key now).0
    unfolding take_token
    take_token-IsLimited key now =
        let o = Map.get l.buckets key in
        let b = (draw_token f l now o).0 in
        with_buckets l (Map.put l.buckets key b) l.last_cleanup h
          (put-IsMap l.buckets key b h.distinct)
          (put-InRange l.burst l.buckets key b (draw_token-InRange now o (h.in_range key))
            h.in_range)

  pub allow-IsLimited :
      (l : Limiter f) (key : Bytes) (now : Readings) → IsLimited l → IsLimited (allow f l key now).0
  unfolding allow
  allow-IsLimited l key now h =
      take_token-IsLimited (maybe_cleanup f l now) (maybe_cleanup-IsLimited l now h) key now

  pub run-IsLimited : (l : Limiter f) (ops : List Operation) → IsLimited l → IsLimited (run l ops)
  unfolding run
  run-IsLimited l [] h = h
  run-IsLimited l (requested key now ∷ ops) h =
      run-IsLimited (allow f l key now).0 ops (allow-IsLimited l key now h)
  run-IsLimited l (cleared key ∷ ops) h =
      run-IsLimited (reset f l key) ops (reset-IsLimited l key h)

  -- Whatever requests and resets a new limiter sees, if its rate is a finite number and not below
  -- 0 and its burst is at least 1, it keeps one bucket for a key, and each bucket holds at least 0
  -- tokens and at most the burst.
  pub run-new_limiter :
      (rate : F) (n now : ℕ) (ops : List Operation)
      → finite rate ≡ true
      → le (of_int (pos 0)) rate ≡ true
      → 1 ≤ n
      → IsLimited (run (new_limiter f rate (pos n) now) ops)
  run-new_limiter rate n now ops r s h =
      run-IsLimited (new_limiter f rate (pos n) now) ops (new_limiter-IsLimited rate n now r s h)
