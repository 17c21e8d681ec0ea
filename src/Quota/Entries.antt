-- ===== src/Quota/Entries.antt =====
-- The tracker's maps read as total functions: a user or an address without an entry has the zero
-- quota. What each operation on them does to every key and to the number of allocations.
use turnfly.Prelude.{ℕ, ◌+◌, ◌≡◌, Option, none, some, arith, if◌then◌else◌}
use turnfly.Text.{Bytes, beq, beq_iff}
use turnfly.Map
use turnfly.Map.{Map}
use turnfly.Map.Laws.{get-put}
use turnfly.Map.Totals.{sum_by, sum_by-put}
use turnfly.Quota.{UserQuota, IpQuota, zero_user, zero_ip, ensure_user, ensure_ip}

abbrev pub or_zero_user : Option UserQuota → UserQuota
or_zero_user none = zero_user
or_zero_user (some q) = q

abbrev pub or_zero_ip : Option IpQuota → IpQuota
or_zero_ip none = zero_ip
or_zero_ip (some q) = q

unfoldable pub user_of : Map UserQuota → Bytes → UserQuota
user_of m u = or_zero_user (Map.get m u)

unfoldable pub ip_of : Map IpQuota → Bytes → IpQuota
ip_of m a = or_zero_ip (Map.get m a)

unfoldable pub total_of : Map UserQuota → ℕ
total_of m = sum_by (λ (q : UserQuota). q.allocations) (Map.values m)

pub user_of-put :
    (m : Map UserQuota) (u v : Bytes) (q : UserQuota)
    → user_of (Map.put m u q) v ≡ (if beq u v then q else user_of m v)
unfolding user_of
user_of-put m u v q = ground (arith, get-put m u v q)

pub ip_of-put :
    (m : Map IpQuota) (u v : Bytes) (q : IpQuota)
    → ip_of (Map.put m u q) v ≡ (if beq u v then q else ip_of m v)
unfolding ip_of
ip_of-put m u v q = ground (arith, get-put m u v q)

pub total_of-put :
    (m : Map UserQuota) (u : Bytes) (q : UserQuota)
    → total_of (Map.put m u q) + (user_of m u).allocations ≡ total_of m + q.allocations
unfolding total_of user_of
total_of-put m u q = ground (arith, sum_by-put (λ (q : UserQuota). q.allocations) m u q)

module _ (m : Map UserQuota) (u : Bytes) where
  pub ensure_user-quota : (ensure_user m u).1 ≡ user_of m u
  unfolding ensure_user user_of
  ensure_user-quota = ground arith

  pub user_of-ensure_user : (v : Bytes) → user_of (ensure_user m u).0 v ≡ user_of m v
  unfolding ensure_user user_of
  user_of-ensure_user v = ground (arith, get-put m u v zero_user, beq_iff u v)

  pub total_of-ensure_user : total_of (ensure_user m u).0 ≡ total_of m
  unfolding ensure_user total_of user_of
  total_of-ensure_user = ground (arith, total_of-put m u zero_user)

module _ (m : Map IpQuota) (a : Bytes) where
  pub ensure_ip-quota : (ensure_ip m a).1 ≡ ip_of m a
  unfolding ensure_ip ip_of
  ensure_ip-quota = ground arith

  pub ip_of-ensure_ip : (b : Bytes) → ip_of (ensure_ip m a).0 b ≡ ip_of m b
  unfolding ensure_ip ip_of
  ip_of-ensure_ip b = ground (arith, get-put m a b zero_ip, beq_iff a b)
