-- ===== src/Quota/Credentials.antt =====
-- How many credentials a user is granted in one window.
use turnfly.Prelude.{
  ℕ, suc, ◌+◌, ◌-◌, ◌≤◌, ◌<◌, ◌≡◌, refl, ap, ◌∙◌, some, List, [], ◌∷◌, arith, leb, ltb, length, All,
  min, if◌then◌else◌,
}
use turnfly.Int.{pos}
use turnfly.Text.{Bytes, beq_refl}
use turnfly.Clock.{since, minute}
use turnfly.Quota.{
  Limits, Tracker, UserQuota, ensure_user, reset_window, allow_credential, since_credential, stamp,
}
use turnfly.Quota.Entries.{user_of, ensure_user-quota, user_of-put}
use turnfly.Quota.Keeps.{allow_credential_keeps}

-- What a request leaves of the user's quota, and whether it is granted.
abbrev pub next_quota : ℕ → UserQuota → ℕ → UserQuota
next_quota cap q later =
    if leb cap q.cred_count
    then q
    else record q { cred_count = q.cred_count + 1; last_credential = stamp q.last_credential later }

module _ (t : Tracker) (u : Bytes) (now later cap : ℕ)
    (hcap : t.limits.max_credential_requests_per_minute ≡ pos cap) where
  abbrev current : UserQuota
  current = reset_window (user_of t.users u) now later

  allow_credential_lem :
      ((allow_credential t u now later).1 ≡ ltb current.cred_count cap)
      × (user_of (allow_credential t u now later).0.users u ≡ next_quota cap current later)
  unfolding allow_credential
  allow_credential_lem =
      let entry : UserQuota = (ensure_user t.users u).1 in
      let same : reset_window entry now later ≡ current =
        ap (λ q. reset_window q now later) (ensure_user-quota t.users u) in
      let q = reset_window entry now later in
      (
        ground (arith, same, hcap),
        ground (
          arith,
          same,
          hcap,
          beq_refl u,
          user_of-put (ensure_user t.users u).0 u u q,
          user_of-put (ensure_user t.users u).0 u u (record q {
            cred_count = q.cred_count + 1;
            last_credential = stamp q.last_credential later;
          }),
        ),
      )

-- The requests of one user, each with its two readings of the clock, and how many were granted.
pub request_all : Tracker → Bytes → List (ℕ × ℕ) → Tracker × ℕ
request_all t u [] = (t, 0)
request_all t u ((now, later) ∷ rest) =
    let (s, granted) = allow_credential t u now later in
    let (last, count) = request_all s u rest in (last, (if granted then 1 else 0) + count)

-- Requests that read the clock at most a minute after `w`.
abbrev pub InWindow : ℕ → List (ℕ × ℕ) → Type 0
InWindow w = All (λ (r : ℕ × ℕ). r.0 ≤ w + minute)

reset_window_inside :
    (q : UserQuota) (w now later : ℕ)
    → q.last_credential ≡ some w
    → now ≤ w + minute
    → reset_window q now later ≡ q
unfolding reset_window since
reset_window_inside q w now later h le = ground arith

reset_window_after :
    (q : UserQuota) (now later : ℕ)
    → minute < since_credential now q.last_credential
    → reset_window q now later ≡ record q { cred_count = 0; last_credential = some later }
unfolding reset_window since
reset_window_after q now later old = ground arith

-- Behind one request: the limit, the count and the start of the window.
module _ (t : Tracker) (u : Bytes) (now later w cap : ℕ)
    (hcap : t.limits.max_credential_requests_per_minute ≡ pos cap) (q : UserQuota)
    (hq : reset_window (user_of t.users u) now later ≡ q) (hw : q.last_credential ≡ some w) where
  abbrev after_request : Tracker
  after_request = (allow_credential t u now later).0

  request_granted : (allow_credential t u now later).1 ≡ ltb q.cred_count cap
  request_granted =
      (allow_credential_lem t u now later cap hcap).0
      ∙ ap (λ (r : UserQuota). ltb r.cred_count cap) hq

  request_quota : user_of after_request.users u ≡ next_quota cap q later
  request_quota =
      (allow_credential_lem t u now later cap hcap).1 ∙ ap (λ r. next_quota cap r later) hq

  request_limit : after_request.limits.max_credential_requests_per_minute ≡ pos cap
  request_limit =
      ap (λ (l : Limits). l.max_credential_requests_per_minute)
        (allow_credential_keeps t u now later).same_limits
      ∙ hcap

  request_window : (user_of after_request.users u).last_credential ≡ some w
  request_window = ground (arith, request_quota)

  request_count :
      (user_of after_request.users u).cred_count
      ≡ (if leb cap q.cred_count then q.cred_count else q.cred_count + 1)
  request_count = ground (arith, request_quota)

-- Within a window every request is granted until the count reaches the limit, and none after.
pub window_count :
    (t : Tracker) (u : Bytes) (w cap : ℕ) (requests : List (ℕ × ℕ))
    → t.limits.max_credential_requests_per_minute ≡ pos cap
    → (user_of t.users u).last_credential ≡ some w
    → InWindow w requests
    → (request_all t u requests).1 ≡ min (length requests) (cap - (user_of t.users u).cred_count)
unfolding request_all
window_count t u w cap [] hcap hw inside = omega arith
window_count t u w cap ((now, later) ∷ rest) hcap hw inside =
    let q = user_of t.users u in
    let hq = reset_window_inside q w now later hw inside.0 in
    let ih =
      window_count (allow_credential t u now later).0 u w cap rest
        (request_limit t u now later w cap hcap q hq hw)
        (request_window t u now later w cap hcap q hq hw) inside.1 in
    ground (
      arith,
      ih,
      request_granted t u now later w cap hcap q hq hw,
      request_count t u now later w cap hcap q hq hw,
    )

-- A request more than a minute after the start of the last window, or the first one of a user,
-- starts a new window at its second reading of the clock. It and the requests that follow within a
-- minute are granted up to the limit, and no further.
pub new_window_count :
    (t : Tracker) (u : Bytes) (now later cap : ℕ) (rest : List (ℕ × ℕ))
    → t.limits.max_credential_requests_per_minute ≡ pos cap
    → minute < since_credential now (user_of t.users u).last_credential
    → InWindow later rest
    → (request_all t u ((now, later) ∷ rest)).1 ≡ min (suc (length rest)) cap
unfolding request_all
new_window_count t u now later cap rest hcap old inside =
    let q = record (user_of t.users u) { cred_count = 0; last_credential = some later } in
    let hq = reset_window_after (user_of t.users u) now later old in
    let ih =
      window_count (allow_credential t u now later).0 u later cap rest
        (request_limit t u now later later cap hcap q hq refl)
        (request_window t u now later later cap hcap q hq refl) inside in
    ground (
      arith,
      ih,
      request_granted t u now later later cap hcap q hq refl,
      request_count t u now later later cap hcap q hq refl,
    )
