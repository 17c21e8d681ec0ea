-- ===== src/Quota/Bandwidth.antt =====
-- What `AllowBandwidth` lets a user send over the life of the tracker.
use turnfly.Prelude.{
  ℕ, ◌+◌, ◌-◌, ◌^◌, ◌≤◌, ◌<◌, ◌≡◌, ap, ◌∙◌, true, List, [], ◌∷◌, arith, leb, All, if◌then◌else◌,
}
use turnfly.Int.{ℤ, pos, negsuc, ◌+ℤ◌, wrap_int64, ◌<ℤ◌}
use turnfly.Text.{Bytes, beq_refl}
use turnfly.Quota.{Limits, Tracker, UserQuota, ensure_user, allow_bandwidth}
use turnfly.Quota.Entries.{user_of, ensure_user-quota, user_of-ensure_user, user_of-put}
use turnfly.Quota.Keeps.{allow_bandwidth_keeps}

-- Two `int64` values that are not negative, added.
add_exact : (k n : ℕ) → k + n < 2 ^ 63 → wrap_int64 (pos k +ℤ pos n) ≡ pos (k + n)
unfolding wrap_int64 ◌+ℤ◌
add_exact k n h = ground arith

add_wraps :
    (k n : ℕ)
    → 2 ^ 63 ≤ k + n
    → k + n < 2 ^ 64
    → wrap_int64 (pos k +ℤ pos n) ≡ negsuc (2 ^ 64 - 1 - (k + n))
unfolding wrap_int64 ◌+ℤ◌
add_wraps k n h b = ground arith

abbrev pub used_by : Tracker → Bytes → ℤ
used_by t u = (user_of t.users u).bytes_per_second

module _ (t : Tracker) (u : Bytes) (k n cap : ℕ) where
  abbrev entry : UserQuota
  entry = (ensure_user t.users u).1

  abbrev sum : ℤ
  sum = wrap_int64 (entry.bytes_per_second +ℤ pos n)

  entry_used : used_by t u ≡ pos k → entry.bytes_per_second ≡ pos k
  entry_used hk = ap (λ (q : UserQuota). q.bytes_per_second) (ensure_user-quota t.users u) ∙ hk

  -- The counter of a user behind a request of `n` bytes.
  pub allow_bandwidth_lem :
      t.limits.max_bandwidth_per_user ≡ pos cap
      → 0 < cap
      → used_by t u ≡ pos k
      → k + n < 2 ^ 63
      → ((allow_bandwidth t u (pos n)).1 ≡ leb (k + n) cap)
        × (used_by (allow_bandwidth t u (pos n)).0 u ≡ pos (if leb (k + n) cap then k + n else k))
  unfolding allow_bandwidth
  allow_bandwidth_lem hcap some_cap hk fits =
      let exact : sum ≡ pos (k + n) =
        ap (λ b. wrap_int64 (b +ℤ pos n)) (entry_used hk) ∙ add_exact k n fits in
      (
        ground (arith, exact, hcap),
        ground (
          arith,
          exact,
          hcap,
          hk,
          beq_refl u,
          user_of-ensure_user t.users u u,
          user_of-put (ensure_user t.users u).0 u u (record entry { bytes_per_second = sum }),
        ),
      )

  -- A request whose size overflows the counter is granted and leaves the counter negative.
  pub overflow_is_granted :
      t.limits.max_bandwidth_per_user ≡ pos cap
      → 0 < cap
      → used_by t u ≡ pos k
      → k < 2 ^ 63
      → n < 2 ^ 63
      → 2 ^ 63 ≤ k + n
      → ((allow_bandwidth t u (pos n)).1 ≡ true)
        × (used_by (allow_bandwidth t u (pos n)).0 u <ℤ pos 0)
  unfolding allow_bandwidth
  overflow_is_granted hcap some_cap hk small small' over =
      let wrapped : sum ≡ negsuc (2 ^ 64 - 1 - (k + n)) =
        ap (λ b. wrap_int64 (b +ℤ pos n)) (entry_used hk) ∙ add_wraps k n over (omega arith) in
      (
        ground (arith, wrapped, hcap),
        ground (
          arith,
          wrapped,
          hcap,
          beq_refl u,
          user_of-put (ensure_user t.users u).0 u u (record entry { bytes_per_second = sum }),
        ),
      )

-- The requests of one user, one after the other, and the sum of the sizes that were granted. No
-- reading of the clock enters.
pub send_all : Tracker → Bytes → List ℕ → Tracker × ℕ
send_all t u [] = (t, 0)
send_all t u (n ∷ ns) =
    let (s, granted) = allow_bandwidth t u (pos n) in
    let (last, sum_granted) = send_all s u ns in (last, (if granted then n else 0) + sum_granted)

-- Whatever time passes between the requests, the bytes that a user is ever granted, together with
-- what the counter held before, stay within the limit, as long as no request is so large that it
-- overflows the counter; the counter never goes down.
pub send_all_lifetime_cap :
    (t : Tracker) (u : Bytes) (k cap : ℕ) (ns : List ℕ)
    → t.limits.max_bandwidth_per_user ≡ pos cap
    → 0 < cap
    → used_by t u ≡ pos k
    → k ≤ cap
    → All (λ n. cap + n < 2 ^ 63) ns
    → (used_by (send_all t u ns).0 u ≡ pos (k + (send_all t u ns).1))
      × (k + (send_all t u ns).1 ≤ cap)
unfolding send_all
send_all_lifetime_cap t u k cap [] hcap some_cap hk le fits =
    (hk ∙ ap pos (omega arith), omega arith)
send_all_lifetime_cap t u k cap (n ∷ ns) hcap some_cap hk le fits =
    let one = allow_bandwidth_lem t u k n cap hcap some_cap hk (omega arith) in
    let s = (allow_bandwidth t u (pos n)).0 in
    let k' = if leb (k + n) cap then k + n else k in
    let limits' : s.limits.max_bandwidth_per_user ≡ pos cap =
      ap (λ (l : Limits). l.max_bandwidth_per_user) (allow_bandwidth_keeps t u (pos n)).same_limits
      ∙ hcap in
    let rest = send_all_lifetime_cap s u k' cap ns limits' some_cap one.1 (ground arith) fits.1 in
    let later : ℕ = (send_all s u ns).1 in
    let regroup : k' + later ≡ k + ((if (allow_bandwidth t u (pos n)).1 then n else 0) + later) =
      ground (arith, one.0) in
    (rest.0 ∙ ap pos regroup, ground (arith, one.0, rest.1))
