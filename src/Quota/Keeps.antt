-- ===== src/Quota/Keeps.antt =====
-- The calls of the tracker that leave the allocations alone.
use turnfly.Prelude.{ℕ, ◌+◌, ◌≡◌, ap, ◌∙◌, arith}
use turnfly.Int.{ℤ, wrap_int64, ◌+ℤ◌}
use turnfly.Text.{Bytes, beq_iff}
use turnfly.Map
use turnfly.Map.{Map}
use turnfly.Quota.{
  Tracker, UserQuota, allow_credential, allow_bandwidth, reset_window, stamp, ensure_user,
}
use turnfly.Quota.Entries.{
  user_of, ip_of, total_of, user_of-put, total_of-put, ensure_user-quota, user_of-ensure_user,
  total_of-ensure_user,
}

reset_window-allocations :
    (q : UserQuota) (now later : ℕ) → (reset_window q now later).allocations ≡ q.allocations
unfolding reset_window
reset_window-allocations q now later = ground arith

-- A call that touches no allocation count.
pub record KeepsAllocations (t s : Tracker) : Type 0 where
  pub same_limits : s.limits ≡ t.limits
  pub same_users : (v : Bytes) → (user_of s.users v).allocations ≡ (user_of t.users v).allocations
  pub same_ips : (b : Bytes) → ip_of s.ips b ≡ ip_of t.ips b
  pub same_total : total_of s.users ≡ total_of t.users

module _ (t : Tracker) (u : Bytes) where
  put_same :
      (q : UserQuota)
      → q.allocations ≡ (user_of t.users u).allocations
      → ((v : Bytes)
          → (user_of (Map.put (ensure_user t.users u).0 u q) v).allocations
            ≡ (user_of t.users v).allocations)
        × (total_of (Map.put (ensure_user t.users u).0 u q) ≡ total_of t.users)
  put_same q h = (
    λ v. ground (
      arith,
      user_of-put (ensure_user t.users u).0 u v q,
      user_of-ensure_user t.users u v,
      beq_iff u v,
    ),
    ground (
      arith,
      total_of-put (ensure_user t.users u).0 u q,
      total_of-ensure_user t.users u,
      user_of-ensure_user t.users u u,
    ),
  )

  pub allow_credential_keeps :
      (now later : ℕ) → KeepsAllocations t (allow_credential t u now later).0
  unfolding allow_credential
  allow_credential_keeps now later = record {
    same_limits = ground arith;
    same_users = λ v. ground (arith, (put_same old kept).0 v, (put_same counted kept).0 v);
    same_ips = λ b. ground arith;
    same_total = ground (arith, (put_same old kept).1, (put_same counted kept).1);
  }
    where
      old : UserQuota
      old = reset_window (ensure_user t.users u).1 now later

      counted : UserQuota
      counted = record old {
        cred_count = old.cred_count + 1;
        last_credential = stamp old.last_credential later;
      }

      kept : old.allocations ≡ (user_of t.users u).allocations
      kept =
          reset_window-allocations _ now later
          ∙ ap (λ (q : UserQuota). q.allocations) (ensure_user-quota t.users u)

  pub allow_bandwidth_keeps : (bytes : ℤ) → KeepsAllocations t (allow_bandwidth t u bytes).0
  unfolding allow_bandwidth
  allow_bandwidth_keeps bytes = record {
    same_limits = ground arith;
    same_users = λ v. ground (arith, (put_same used kept).0 v, user_of-ensure_user t.users u v);
    same_ips = λ b. ground arith;
    same_total = ground (arith, (put_same used kept).1, total_of-ensure_user t.users u);
  }
    where
      old : UserQuota
      old = (ensure_user t.users u).1

      used : UserQuota
      used = record old { bytes_per_second = wrap_int64 (old.bytes_per_second +ℤ bytes) }

      kept : old.allocations ≡ (user_of t.users u).allocations
      kept = ap (λ (q : UserQuota). q.allocations) (ensure_user-quota t.users u)
