-- ===== src/RateLimit.antt =====
-- internal/ratelimit/ratelimit.go: the token-bucket limiter and its HTTP middleware. The clock is
-- read several times under the lock; each call is given what those readings returned, on the
-- monotonic clock.
mod Float
pub mod Buckets
pub mod Bursts
pub mod Waiting
pub mod ClientIp
pub mod Tests
pub use Float.{Float64}
use turnfly.Prelude.{
  ℕ, zero, suc, ◌+◌, ◌*◌, Bool, true, false, Option, none, some, List, [], ◌∷◌, ltb, ◌==◌, take,
  drop, length, if◌then◌else◌,
}
use turnfly.Int.{ℤ, pos}
use turnfly.Text.{Bytes, codes}
use turnfly.Clock.{since, minute}
use turnfly.Map
use turnfly.Map.{Map}

pub record HttpRequest : Type 0 where
  pub forwarded_for : Bytes
  pub remote_addr : Bytes

pub record HttpResponse : Type 0 where
  pub status : ℕ
  pub headers : List (Bytes × Bytes)
  pub body : Bytes

-- What the middleware does with a request: it calls the next handler, or answers itself.
pub data Outcome : Type 0 where
  passed : Outcome
  answered : HttpResponse → Outcome

-- The readings of one `Allow`: `time.Since(l.lastCleanup)`, `l.lastCleanup = time.Now()`, the
-- base of the cutoff, `time.Since(b.lastCheck)`, and the `time.Now()` that the bucket keeps.
pub record Readings : Type 0 where
  pub cleanup_check : ℕ
  pub cleanup_mark : ℕ
  pub cutoff_base : ℕ
  pub refill : ℕ
  pub mark : ℕ

-- The loop of `clientIP` over the positions below `i`, from the last.
pub strip_port : Bytes → ℕ → Bytes
strip_port host zero = host
strip_port host (suc i) =
    let rest = strip_port host i in
    elim (drop i host) [ c ∷ _ ↦ if c == b':' then take i host else rest | [] ↦ rest ]

-- `clientIP`
pub client_ip : HttpRequest → Bytes
unfolding strip_port
client_ip r = elim r.forwarded_for [
  | [] ↦ strip_port r.remote_addr (length r.remote_addr)
  | c ∷ cs ↦ c ∷ cs
]

-- The answer to a request beyond the limit.
pub too_many : HttpResponse
too_many = record {
  status = 429;
  headers =
      (codes "Retry-After", codes "1") ∷ (codes "Content-Type", codes "application/json") ∷ [];
  body = codes "{\"error\":\"rate limit exceeded\"}";
}

module _ (f : Float64) where
  open f use {F, of_int, add, sub, mul, lt, le, seconds}

  pub record Bucket : Type 0 where
    pub tokens : F
    pub last_check : ℕ

  pub record Limiter : Type 0 where
    pub buckets : Map Bucket
    pub rate : F
    pub burst : ℤ
    pub cleanup_interval : ℕ
    pub last_cleanup : ℕ

  -- `NewLimiter`
  pub new_limiter : F → ℤ → ℕ → Limiter
  new_limiter rate burst now = record {
    buckets = Map.empty;
    rate = rate;
    burst = burst;
    cleanup_interval = 5 * minute;
    last_cleanup = now;
  }

  -- `b.lastCheck.Before(cutoff)`, the cutoff being `age` before `base`.
  pub is_stale : ℕ → ℕ → Bucket → Bool
  is_stale base age b = ltb (b.last_check + age) base

  -- `(*Limiter).maybeCleanup`
  pub maybe_cleanup : Limiter → Readings → Limiter
  maybe_cleanup l now =
      if ltb (since now.cleanup_check l.last_cleanup) l.cleanup_interval then l else record l {
        last_cleanup = now.cleanup_mark;
        buckets =
            (Map.delete_where (is_stale now.cutoff_base (2 * l.cleanup_interval)) l.buckets).0;
      }

  -- The refill of a bucket, up to the burst.
  pub refill_bucket : Limiter → Bucket → Readings → F
  refill_bucket l b now =
      let filled = add b.tokens (mul (seconds (since now.refill b.last_check)) l.rate) in
      if lt (of_int l.burst) filled then of_int l.burst else filled

  -- The bucket of the key behind the request, and whether the request takes a token.
  pub draw_token : Limiter → Readings → Option Bucket → Bucket × Bool
  unfolding refill_bucket
  draw_token l now none =
      (record { tokens = sub (of_int l.burst) (of_int (pos 1)); last_check = now.mark }, true)
  draw_token l now (some b) =
      let filled = refill_bucket l b now in
      if le (of_int (pos 1)) filled
      then (record { tokens = sub filled (of_int (pos 1)); last_check = now.mark }, true)
      else (record { tokens = filled; last_check = now.mark }, false)

  -- `(*Limiter).Allow`, behind the cleanup.
  pub take_token : Limiter → Bytes → Readings → Limiter × Bool
  take_token l key now =
      let (b, granted) = draw_token l now (Map.get l.buckets key) in
      (record l { buckets = Map.put l.buckets key b }, granted)

  -- `(*Limiter).Allow`
  pub allow : Limiter → Bytes → Readings → Limiter × Bool
  allow l key now = take_token (maybe_cleanup l now) key now

  -- `(*Limiter).Reset`
  pub reset : Limiter → Bytes → Limiter
  reset l key = record l { buckets = Map.erase l.buckets key }

  -- `(*Limiter).Size`
  pub size : Limiter → ℕ
  size l = Map.size l.buckets

  -- The handler that `Middleware` makes.
  pub middleware : Limiter → HttpRequest → Readings → Limiter × Outcome
  middleware l r now =
      let (l', granted) = allow l (client_ip r) now in
      (l', if granted then passed else answered too_many)
