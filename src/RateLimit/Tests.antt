-- ===== src/RateLimit/Tests.antt =====
-- The limiter at concrete calls, with whole tokens in place of float64.
use turnfly.Prelude.{ℕ, ◌+◌, ◌-◌, ◌*◌, ◌/◌, ◌≡◌, refl, true, [], ◌∷◌, arith, ltb, leb, min, le→leb}
use turnfly.Int.{pos, pos_part}
use turnfly.Text.{Bytes, codes, beq}
use turnfly.Clock.{second, since}
use turnfly.Map
use turnfly.RateLimit.{
  HttpRequest, maybe_cleanup, draw_token, take_token, Float64, Limiter, Readings, new_limiter,
  middleware, answered, too_many, allow, client_ip,
}
use turnfly.RateLimit.Buckets.{
  requested, cleared, IsLimited, run, run-new_limiter, new_limiter-IsLimited,
}
use turnfly.RateLimit.Bursts.{instant, occurrences, granted_at, granted_at-new_limiter}
use turnfly.RateLimit.Waiting.{allow-run-allow}

-- Tokens and seconds that are rounded down to whole ones.
abbrev whole : Float64
whole = record {
  F = ℕ;
  of_int = pos_part;
  add = λ a b. a + b;
  sub = λ a b. a - b;
  mul = λ a b. a * b;
  lt = ltb;
  le = leb;
  finite = λ a. true;
  seconds = λ n. n / second;
  le_exact = λ m n h k. refl;
  lt_exact = λ m n h k. ground arith;
  pred_exact = λ n h. omega arith;
  le_one = λ n h. le→leb 1 n h;
  no_time = λ t r h. (omega arith);
  zero_le_mul = λ d r h k. ground arith;
  zero_le_add = λ a b h k. ground arith;
  one_le_add = λ a b h k. ground arith;
  zero_le_of_one_le = λ a h. ground arith;
  zero_le_pred = λ a h. ground arith;
  pred_le = λ a b h. ground arith;
  le_self = λ a h. ground arith;
  le_of_not_lt = λ a b h k e. ground arith;
}

abbrev alice : Bytes
alice = codes "alice"

abbrev bob : Bytes
bob = codes "bob"

-- Two tokens a second, three at most.
abbrev fresh : Limiter whole
fresh = new_limiter whole 2 (pos 3) 0

abbrev soon : Readings
soon = instant (5 * second)

run-new_limiter_example :
    IsLimited whole
      (run whole fresh (requested alice (instant 0) ∷ cleared alice ∷ requested bob soon ∷ []))
run-new_limiter_example =
    run-new_limiter whole 2 3 0
      (requested alice (instant 0) ∷ cleared alice ∷ requested bob soon ∷ []) refl refl
      (omega arith)

granted_at-new_limiter_example :
    granted_at whole fresh 0 alice (alice ∷ bob ∷ alice ∷ alice ∷ alice ∷ [])
    ≡ min 3 (occurrences alice (alice ∷ bob ∷ alice ∷ alice ∷ alice ∷ []))
granted_at-new_limiter_example =
    granted_at-new_limiter whole 2 3 0 alice (alice ∷ bob ∷ alice ∷ alice ∷ alice ∷ []) refl
      (omega arith) (omega arith)

allow-run-allow_example :
    (allow whole
      (run whole (allow whole fresh alice (instant 0)).0 (requested bob soon ∷ []))
      alice
      soon).1
    ≡ true
unfolding beq since new_limiter
allow-run-allow_example =
    allow-run-allow whole fresh alice (instant 0) soon (requested bob soon ∷ [])
      (new_limiter-IsLimited whole 2 3 0 refl refl (omega arith)) (refl, tt) refl

-- A request of an IPv6 client, whose address has colons too.
stripped :
    client_ip (record { forwarded_for = []; remote_addr = codes "[::1]:4000" }) ≡ codes "[::1]"
unfolding client_ip
stripped = refl

abbrev visit : HttpRequest
visit = record { forwarded_for = alice; remote_addr = codes "10.0.0.1:80" }

abbrev once : Limiter whole
once = (middleware whole (new_limiter whole 1 (pos 1) 0) visit (instant 0)).0

second_visit : (middleware whole once visit (instant 0)).1 ≡ answered too_many
unfolding middleware allow take_token draw_token maybe_cleanup new_limiter client_ip since beq
    Map.get Map.put Map.empty
second_visit = refl
