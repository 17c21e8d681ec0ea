-- ===== src/Quota/Allocations.antt =====
-- What `AllowAllocation` and `ReleaseAllocation` do to every key and to the number of allocations.
use turnfly.Prelude.{
  ◌+◌, ◌-◌, ◌≡◌, refl, Bool, ◌&&◌, inl, inr, Option-cases, arith, ltb, if◌then◌else◌,
}
use turnfly.Int.{pos, ltb_ℤ}
use turnfly.Text.{Bytes, beq, beq_iff}
use turnfly.Map
use turnfly.Map.{Map}
use turnfly.Map.Laws.{get-put}
use turnfly.Quota.{
  Tracker, UserQuota, IpQuota, ensure_user, ensure_ip, allow_allocation, release_user, release_ip,
  release_allocation,
}
use turnfly.Quota.Entries.{
  user_of, ip_of, total_of, user_of-put, ip_of-put, total_of-put, ensure_user-quota,
  user_of-ensure_user, total_of-ensure_user, ensure_ip-quota, ip_of-ensure_ip,
}

-- Whether a user and an address are both below their limits.
abbrev pub has_room : Tracker → Bytes → Bytes → Bool
has_room t u a =
    ltb_ℤ (pos (user_of t.users u).allocations) t.limits.max_allocations_per_user
    && ltb_ℤ (pos (ip_of t.ips a).ip_allocations) t.limits.max_allocations_per_ip

module _ (t : Tracker) (u a : Bytes) where
  -- An allocation is granted exactly if the user and the address are both below their limits.
  pub allow_allocation_granted : (allow_allocation t u a).1 ≡ has_room t u a
  unfolding allow_allocation
  allow_allocation_granted = ground (arith, ensure_user-quota t.users u, ensure_ip-quota t.ips a)

  abbrev raised_user : UserQuota
  raised_user = let q = (ensure_user t.users u).1 in record q { allocations = q.allocations + 1 }

  abbrev raised_ip : IpQuota
  raised_ip = let q = (ensure_ip t.ips a).1 in record q { ip_allocations = q.ip_allocations + 1 }

  pub allow_allocation_user :
      (v : Bytes)
      → user_of (allow_allocation t u a).0.users v ≡ (
          if has_room t u a && beq u v
          then record (user_of t.users v) { allocations = (user_of t.users v).allocations + 1 }
          else user_of t.users v)
  unfolding allow_allocation
  allow_allocation_user v = ground (
    arith,
    ensure_user-quota t.users u,
    ensure_ip-quota t.ips a,
    user_of-ensure_user t.users u v,
    user_of-put (ensure_user t.users u).0 u v raised_user,
    beq_iff u v,
  )

  pub allow_allocation_ip :
      (b : Bytes)
      → ip_of (allow_allocation t u a).0.ips b ≡ (
          if has_room t u a && beq a b
          then record (ip_of t.ips b) { ip_allocations = (ip_of t.ips b).ip_allocations + 1 }
          else ip_of t.ips b)
  unfolding allow_allocation
  allow_allocation_ip b = ground (
    arith,
    ensure_user-quota t.users u,
    ensure_ip-quota t.ips a,
    ip_of-ensure_ip t.ips a b,
    ip_of-put (ensure_ip t.ips a).0 a b raised_ip,
    beq_iff a b,
  )

  pub allow_allocation_total :
      total_of (allow_allocation t u a).0.users
      ≡ total_of t.users + (if has_room t u a then 1 else 0)
  unfolding allow_allocation
  allow_allocation_total = ground (
    arith,
    ensure_user-quota t.users u,
    ensure_ip-quota t.ips a,
    user_of-ensure_user t.users u u,
    total_of-ensure_user t.users u,
    total_of-put (ensure_user t.users u).0 u raised_user,
  )

module _ (t : Tracker) (u a : Bytes) where
  pub allow_allocation_limits : (allow_allocation t u a).0.limits ≡ t.limits
  unfolding allow_allocation
  allow_allocation_limits = ground arith

  pub release_allocation_limits : (release_allocation t u a).limits ≡ t.limits
  unfolding release_allocation
  release_allocation_limits = refl

-- A release lowers the counts of its user and its address, not below 0.
module _ (t : Tracker) (u a : Bytes) where
  pub release_allocation_user :
      (v : Bytes)
      → user_of (release_allocation t u a).users v ≡ (
          if beq u v
          then record (user_of t.users v) { allocations = (user_of t.users v).allocations - 1 }
          else user_of t.users v)
  unfolding release_allocation release_user user_of
  release_allocation_user v = elim (Option-cases (Map.get t.users u)) [
    | inl e ↦ ground (arith, e, beq_iff u v)
    | inr (q, e) ↦
        ground (
          arith,
          e,
          beq_iff u v,
          get-put t.users u v (record q { allocations = q.allocations - 1 }),
        )
  ]

  pub release_allocation_ip :
      (b : Bytes)
      → ip_of (release_allocation t u a).ips b ≡ (
          if beq a b
          then record (ip_of t.ips b) { ip_allocations = (ip_of t.ips b).ip_allocations - 1 }
          else ip_of t.ips b)
  unfolding release_allocation release_ip ip_of
  release_allocation_ip b = elim (Option-cases (Map.get t.ips a)) [
    | inl e ↦ ground (arith, e, beq_iff a b)
    | inr (q, e) ↦ ground (
      arith,
      e,
      beq_iff a b,
      get-put t.ips a b (record q { ip_allocations = q.ip_allocations - 1 }),
    )
  ]

  pub release_allocation_total :
      total_of (release_allocation t u a).users
        + (if ltb 0 (user_of t.users u).allocations then 1 else 0)
      ≡ total_of t.users
  unfolding release_allocation release_user user_of
  release_allocation_total = elim (Option-cases (Map.get t.users u)) [
    | inl e ↦ ground (arith, e)
    | inr (q, e) ↦
        ground (arith, e, total_of-put t.users u (record q { allocations = q.allocations - 1 }))
  ]
