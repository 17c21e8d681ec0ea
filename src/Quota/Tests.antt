-- ===== src/Quota/Tests.antt =====
-- The quota tracker at concrete calls.
use turnfly.Prelude.{ℕ, ◌+◌, ◌-◌, ◌^◌, ◌*◌, ◌≤◌, ◌≡◌, refl, true, List, [], ◌∷◌, arith, min}
use turnfly.Int.{pos, wrap_int64, ◌+ℤ◌, ◌<ℤ◌}
use turnfly.Text.{Bytes, codes}
use turnfly.Clock.{second}
use turnfly.Map
use turnfly.Quota.{
  Tracker, new_tracker, default_limits, ensure_user, ensure_ip, allow_allocation,
  release_allocation, allow_bandwidth, active_allocations,
}
use turnfly.Quota.Entries.{user_of}
use turnfly.Quota.Ledger.{Tracks, grant, release, History, start, next, History-Tracks}
use turnfly.Quota.Credentials.{request_all, new_window_count}
use turnfly.Quota.Bandwidth.{send_all, used_by, send_all_lifetime_cap, overflow_is_granted}

abbrev fresh : Tracker
fresh = new_tracker default_limits

abbrev alice : Bytes
alice = codes "alice"

abbrev home : Bytes
home = codes "10.0.0.1"

abbrev granted : Tracker
granted = (allow_allocation fresh alice home).0

first_grant : (allow_allocation fresh alice home).1 ≡ true
unfolding allow_allocation ensure_user ensure_ip new_tracker Map.get Map.put Map.empty
first_grant = refl

released : History default_limits (release_allocation granted alice home) []
released = next (next start (grant alice home first_grant)) (release alice home [] [] refl)

History-Tracks_example :
    Tracks (release_allocation granted alice home) []
    × (active_allocations (release_allocation granted alice home) ≡ 0)
History-Tracks_example = History-Tracks released

fresh_used : used_by fresh alice ≡ pos 0
unfolding user_of new_tracker Map.get Map.empty
fresh_used = refl

send_all_lifetime_cap_example :
    (used_by (send_all fresh alice (1_000_000 ∷ 1_000_000 ∷ [])).0 alice
      ≡ pos (0 + (send_all fresh alice (1_000_000 ∷ 1_000_000 ∷ [])).1))
    × (0 + (send_all fresh alice (1_000_000 ∷ 1_000_000 ∷ [])).1 ≤ 1_048_576)
unfolding new_tracker
send_all_lifetime_cap_example =
    send_all_lifetime_cap fresh alice 0 1_048_576 (1_000_000 ∷ 1_000_000 ∷ []) limits_bandwidth
      (omega arith) fresh_used (omega arith) (omega arith)
  where
    limits_bandwidth : fresh.limits.max_bandwidth_per_user ≡ pos 1_048_576
    limits_bandwidth = refl

abbrev one_byte : Tracker
one_byte = (allow_bandwidth fresh alice (pos 1)).0

one_byte_used : used_by one_byte alice ≡ pos 1
unfolding user_of new_tracker allow_bandwidth ensure_user wrap_int64 ◌+ℤ◌ Map.get Map.put Map.empty
one_byte_used = refl

one_byte_limit : one_byte.limits.max_bandwidth_per_user ≡ pos 1_048_576
unfolding new_tracker allow_bandwidth ensure_user wrap_int64 ◌+ℤ◌ Map.get Map.put Map.empty
one_byte_limit = refl

overflow_granted :
    ((allow_bandwidth one_byte alice (pos (2 ^ 63 - 1))).1 ≡ true)
    × (used_by (allow_bandwidth one_byte alice (pos (2 ^ 63 - 1))).0 alice <ℤ pos 0)
overflow_granted =
    overflow_is_granted one_byte alice 1 (2 ^ 63 - 1) 1_048_576 one_byte_limit (omega arith)
      one_byte_used (omega arith) (omega arith) (omega arith)

abbrev requests : List (ℕ × ℕ)
requests = (2 * second, 2 * second) ∷ (3 * second, 3 * second) ∷ []

abbrev asked : Tracker
asked = (request_all fresh alice ((second, second) ∷ [])).0

new_window_count_example : (request_all fresh alice ((second, second) ∷ requests)).1 ≡ min 3 60
unfolding user_of new_tracker Map.get Map.empty
new_window_count_example =
    new_window_count fresh alice second second 60 requests refl (omega arith) (omega arith)
