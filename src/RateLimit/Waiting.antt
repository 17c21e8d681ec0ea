-- ===== src/RateLimit/Waiting.antt =====
-- A client that waits for one token is served.
use turnfly.Prelude.{
  ℕ, ltb, ◌*◌, ◌≡◌, refl, Bool, true, false, Option, none, some, List, [], ◌∷◌, inl, inr, All,
  Bool-cases,
}
use turnfly.Int.{pos}
use turnfly.Text.{Bytes, beq}
use turnfly.Clock.{since}
use turnfly.Map
use turnfly.Map.{IsMap}
use turnfly.Map.Laws.{get-put, get-erase, get-put_self}
use turnfly.Map.Deletion.{surviving, delete_where-get}
use turnfly.RateLimit.{
  Float64, Bucket, Limiter, Readings, is_stale, maybe_cleanup, refill_bucket, draw_token,
  take_token, allow, reset,
}
use turnfly.RateLimit.Buckets.{
  Operation, requested, cleared, InRange, IsLimited, run, maybe_cleanup-IsLimited, allow-IsLimited,
  reset-IsLimited, run-IsLimited, one_le_burst,
}

-- An operation that is not a request of the key.
abbrev pub IsOther : Bytes → Operation → Type 0
IsOther key (requested j now) = beq j key ≡ false
IsOther key (cleared j) = Unit

module _ (f : Float64) where
  open f use {F, of_int, add, mul, lt, le, seconds, one_le_add}

  -- At a reading of the clock, the time since the last check of the bucket is worth one token.
  abbrev pub Waited : F → ℕ → Option (Bucket f) → Type 0
  Waited rate now none = Unit
  Waited rate now (some b) =
      le (of_int (pos 1)) (mul (seconds (since now b.last_check)) rate) ≡ true

  draw_token-Waited :
      (l : Limiter f) (now : Readings) (o : Option (Bucket f))
      → IsLimited f l
      → InRange f l.burst o
      → Waited l.rate now.refill o
      → (draw_token f l now o).1 ≡ true
  unfolding draw_token refill_bucket
  draw_token-Waited l now none h r w = refl
  draw_token-Waited l now (some b) h r w =
      let filled = add b.tokens (mul (seconds (since now.refill b.last_check)) l.rate) in
      let enough =
        one_le_add b.tokens (mul (seconds (since now.refill b.last_check)) l.rate) r.0 w in
      elim (Bool-cases (lt (of_int l.burst) filled)) [
        | inl e ↦ rw (e, one_le_burst f l h)
        | inr e ↦ rw (e, enough)
      ]

  surviving-Waited :
      (rate : F) (at : ℕ) (drop : Bucket f → Bool) (o : Option (Bucket f))
      → Waited rate at o
      → Waited rate at (surviving drop o)
  surviving-Waited rate at drop none w = tt
  surviving-Waited rate at drop (some b) w = elim (Bool-cases (drop b)) [
    | inl e ↦ rw e tt
    | inr e ↦ rw e w
  ]

  -- A client for whose bucket the wait at `at` is long enough.
  abbrev pub Due : Limiter f → Bytes → ℕ → F → Type 0
  Due l key at rate = (l.rate ≡ rate) × Waited rate at (Map.get l.buckets key)

  maybe_cleanup-Due :
      (l : Limiter f) (now : Readings) (key : Bytes) (at : ℕ) (rate : F)
      → IsMap l.buckets
      → Due l key at rate
      → Due (maybe_cleanup f l now) key at rate
  unfolding maybe_cleanup
  maybe_cleanup-Due l now key at rate d w =
      let stale = is_stale f now.cutoff_base (2 * l.cleanup_interval) in
      elim (Bool-cases (ltb (since now.cleanup_check l.last_cleanup) l.cleanup_interval)) [
        | inl e ↦ rw e w
        | inr e ↦
            rw (e, delete_where-get stale l.buckets key d)
              (w.0, surviving-Waited rate at stale (Map.get l.buckets key) w.1)
      ]

  allow-Waited :
      (l : Limiter f) (key : Bytes) (now : Readings)
      → IsLimited f l
      → Waited l.rate now.refill (Map.get l.buckets key)
      → (allow f l key now).1 ≡ true
  unfolding allow take_token
  allow-Waited l key now h w =
      let l' = maybe_cleanup f l now in
      let h' = maybe_cleanup-IsLimited f l now h in
      let (same, due) = maybe_cleanup-Due l now key now.refill l.rate h.distinct (refl, w) in
      draw_token-Waited l' now (Map.get l'.buckets key) h' (h'.in_range key) (rw same due)

  allow-Due :
      (l : Limiter f) (j : Bytes) (now : Readings) (key : Bytes) (at : ℕ) (rate : F)
      → IsMap l.buckets
      → beq j key ≡ false
      → Due l key at rate
      → Due (allow f l j now).0 key at rate
  unfolding allow take_token
  allow-Due l j now key at rate d other w =
      let l' = maybe_cleanup f l now in
      let w' = maybe_cleanup-Due l now key at rate d w in
      rw (get-put l'.buckets j key (draw_token f l' now (Map.get l'.buckets j)).0, other) w'

  reset-Due :
      (l : Limiter f) (j key : Bytes) (at : ℕ) (rate : F)
      → Due l key at rate
      → Due (reset f l j) key at rate
  unfolding reset
  reset-Due l j key at rate w =
      rw (get-erase l.buckets j key)
        (w.0, elim (Bool-cases (beq j key)) [ inl e ↦ rw e tt | inr e ↦ rw e w.1 ])

  run-Due :
      (l : Limiter f) (ops : List Operation) (key : Bytes) (at : ℕ) (rate : F)
      → IsLimited f l
      → All (IsOther key) ops
      → Due l key at rate
      → Due (run f l ops) key at rate
  unfolding run
  run-Due l [] key at rate h others w = w
  run-Due l (requested j now ∷ ops) key at rate h others w =
      run-Due (allow f l j now).0 ops key at rate (allow-IsLimited f l j now h) others.1
        (allow-Due l j now key at rate h.distinct others.0 w)
  run-Due l (cleared j ∷ ops) key at rate h others w =
      run-Due (reset f l j) ops key at rate (reset-IsLimited f l j h) others.1
        (reset-Due l j key at rate w)

  maybe_cleanup-rate : (l : Limiter f) (now : Readings) → (maybe_cleanup f l now).rate ≡ l.rate
  unfolding maybe_cleanup
  maybe_cleanup-rate l now =
      elim (Bool-cases (ltb (since now.cleanup_check l.last_cleanup) l.cleanup_interval)) [
        | inl e ↦ rw e
        | inr e ↦ rw e
      ]

  draw_token-mark :
      (l : Limiter f) (now : Readings) (o : Option (Bucket f))
      → (draw_token f l now o).0.last_check ≡ now.mark
  unfolding draw_token
  draw_token-mark l now none = refl
  draw_token-mark l now (some b) =
      elim (Bool-cases (le (of_int (pos 1)) (refill_bucket f l b now))) [
        | inl e ↦ rw e
        | inr e ↦ rw e
      ]

  -- Behind its own request the bucket of a client has that request's mark.
  allow-mark :
      (l : Limiter f) (key : Bytes) (now : Readings) (at : ℕ)
      → le (of_int (pos 1)) (mul (seconds (since at now.mark)) l.rate) ≡ true
      → Due (allow f l key now).0 key at l.rate
  unfolding allow take_token
  allow-mark l key now at w =
      let l' = maybe_cleanup f l now in
      let o = Map.get l'.buckets key in
      (
        maybe_cleanup-rate l now,
        rw (get-put_self l'.buckets key (draw_token f l' now o).0, draw_token-mark l' now o) w,
      )

  -- A client is never shut out for good: granted or refused, if it makes no further request until
  -- the time since this one is worth a token at the limiter's rate, its next request is granted,
  -- whatever the other clients send and whichever keys are reset in between. The rate is a finite
  -- number and not below 0 and the burst is at least 1.
  pub allow-run-allow :
      (l : Limiter f) (key : Bytes) (now later : Readings) (ops : List Operation)
      → IsLimited f l
      → All (IsOther key) ops
      → le (of_int (pos 1)) (mul (seconds (since later.refill now.mark)) l.rate) ≡ true
      → (allow f (run f (allow f l key now).0 ops) key later).1 ≡ true
  allow-run-allow l key now later ops h others wait =
      let l' = (allow f l key now).0 in
      let h' = allow-IsLimited f l key now h in
      let (same, due) =
        run-Due l' ops key later.refill l.rate h' others (allow-mark l key now later.refill wait) in
      allow-Waited (run f l' ops) key later (run-IsLimited f l' ops h') (rw same due)
