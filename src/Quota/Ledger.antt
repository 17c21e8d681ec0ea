-- ===== src/Quota/Ledger.antt =====
-- The tracker against the ledger of the allocations that are live: a list of pairs of a user and
-- an address, one for each grant that has not been released.
use turnfly.Prelude.{
  ℕ, ◌+◌, ◌<◌, ◌≡◌, refl, sym, ap, subst, ◌∙◌, true, false, List, [], ◌∷◌, ◌++◌, arith, length,
  if◌then◌else◌,
}
use turnfly.Int.{ℤ, pos, ◌≤ℤ◌}
use turnfly.Text.{Bytes, beq, beq_iff, beq_refl}
use turnfly.Map.Laws.{get-empty}
use turnfly.Map.Totals.{sum_by-empty}
use turnfly.Quota.{
  Limits, Tracker, UserQuota, IpQuota, new_tracker, allow_allocation, release_allocation,
  allow_credential, allow_bandwidth, active_allocations,
}
use turnfly.Quota.Entries.{user_of, ip_of, total_of}
use turnfly.Quota.Allocations.{
  has_room, allow_allocation_granted, allow_allocation_user, allow_allocation_ip,
  allow_allocation_total, allow_allocation_limits, release_allocation_limits,
  release_allocation_user, release_allocation_ip, release_allocation_total,
}
use turnfly.Quota.Keeps.{KeepsAllocations, allow_credential_keeps, allow_bandwidth_keeps}

abbrev pub Ledger : Type 0
Ledger = List (Bytes × Bytes)

-- How many live allocations a user has, and how many an address has.
abbrev pub held_by_user : Bytes → Ledger → ℕ
held_by_user u [] = 0
held_by_user u ((v, a) ∷ l) = (if beq v u then 1 else 0) + held_by_user u l

abbrev pub held_by_ip : Bytes → Ledger → ℕ
held_by_ip a [] = 0
held_by_ip a ((v, b) ∷ l) = (if beq b a then 1 else 0) + held_by_ip a l

held_by_user-middle :
    (u v a : Bytes) (front back : Ledger)
    → held_by_user u (front ++ ((v, a) ∷ back))
      ≡ (if beq v u then 1 else 0) + held_by_user u (front ++ back)
held_by_user-middle u v a [] back = refl
held_by_user-middle u v a ((w, b) ∷ front) back =
    omega (arith, held_by_user-middle u v a front back)

held_by_ip-middle :
    (c v a : Bytes) (front back : Ledger)
    → held_by_ip c (front ++ ((v, a) ∷ back))
      ≡ (if beq a c then 1 else 0) + held_by_ip c (front ++ back)
held_by_ip-middle c v a [] back = refl
held_by_ip-middle c v a ((w, b) ∷ front) back = omega (arith, held_by_ip-middle c v a front back)

length-middle :
    (v a : Bytes) (front back : Ledger)
    → length (front ++ ((v, a) ∷ back)) ≡ length (front ++ back) + 1
length-middle v a [] back = omega arith
length-middle v a ((w, b) ∷ front) back = omega (arith, length-middle v a front back)

-- The tracker counts what the ledger holds, and nobody holds more than the limits.
pub record Tracks (t : Tracker) (l : Ledger) : Type 0 where
  pub users_exact : (u : Bytes) → (user_of t.users u).allocations ≡ held_by_user u l
  pub ips_exact : (a : Bytes) → (ip_of t.ips a).ip_allocations ≡ held_by_ip a l
  pub total_exact : total_of t.users ≡ length l
  pub user_cap :
      (u : Bytes)
      → 0 < held_by_user u l
      → pos (held_by_user u l) ≤ℤ t.limits.max_allocations_per_user
  pub ip_cap :
      (a : Bytes) → 0 < held_by_ip a l → pos (held_by_ip a l) ≤ℤ t.limits.max_allocations_per_ip

-- One call of the tracker and what it does to the ledger. A release is for an allocation that is
-- live; the other calls may come with any arguments.
pub data Step (t : Tracker) : Ledger → Tracker → Ledger → Type 0 where
  grant :
      {l : Ledger} (u a : Bytes)
      → (allow_allocation t u a).1 ≡ true
      → Step t l (allow_allocation t u a).0 ((u, a) ∷ l)
  refuse :
      {l : Ledger} (u a : Bytes)
      → (allow_allocation t u a).1 ≡ false
      → Step t l (allow_allocation t u a).0 l
  release :
      {l : Ledger} (u a : Bytes) (front back : Ledger)
      → l ≡ front ++ ((u, a) ∷ back)
      → Step t l (release_allocation t u a) (front ++ back)
  credential :
      {l : Ledger} (u : Bytes) (now later : ℕ) → Step t l (allow_credential t u now later).0 l
  bandwidth : {l : Ledger} (u : Bytes) (bytes : ℤ) → Step t l (allow_bandwidth t u bytes).0 l

grant-Tracks :
    (t : Tracker) (l : Ledger) (u a : Bytes)
    → Tracks t l
    → (allow_allocation t u a).1 ≡ true
    → Tracks (allow_allocation t u a).0 ((u, a) ∷ l)
grant-Tracks t l u a h g = record {
  users_exact = λ v. ground (arith, room, allow_allocation_user t u a v, h.users_exact v);
  ips_exact = λ b. ground (arith, room, allow_allocation_ip t u a b, h.ips_exact b);
  total_exact = ground (arith, room, allow_allocation_total t u a, h.total_exact);
  user_cap = λ v. ground (
    arith,
    room,
    allow_allocation_limits t u a,
    h.users_exact u,
    h.users_exact v,
    h.user_cap v,
    beq_iff u v,
  );
  ip_cap = λ b. ground (
    arith,
    room,
    allow_allocation_limits t u a,
    h.ips_exact a,
    h.ips_exact b,
    h.ip_cap b,
    beq_iff a b,
  );
}
  where
    room : has_room t u a ≡ true
    room = sym (allow_allocation_granted t u a) ∙ g

keep-Tracks : (t s : Tracker) (l : Ledger) → Tracks t l → KeepsAllocations t s → Tracks s l
keep-Tracks t s l h k = record {
  users_exact = λ v. k.same_users v ∙ h.users_exact v;
  ips_exact = λ b. ap (λ (q : IpQuota). q.ip_allocations) (k.same_ips b) ∙ h.ips_exact b;
  total_exact = k.same_total ∙ h.total_exact;
  user_cap = rw (k.same_limits) h.user_cap;
  ip_cap = rw (k.same_limits) h.ip_cap;
}

refuse-Keeps :
    (t : Tracker) (u a : Bytes)
    → (allow_allocation t u a).1 ≡ false
    → KeepsAllocations t (allow_allocation t u a).0
refuse-Keeps t u a g = record {
  same_limits = allow_allocation_limits t u a;
  same_users = λ v. ground (arith, full, allow_allocation_user t u a v);
  same_ips = λ b. ground (arith, full, allow_allocation_ip t u a b);
  same_total = ground (arith, full, allow_allocation_total t u a);
}
  where
    full : has_room t u a ≡ false
    full = sym (allow_allocation_granted t u a) ∙ g

release-Tracks :
    (t : Tracker) (u a : Bytes) (front back : Ledger)
    → Tracks t (front ++ ((u, a) ∷ back))
    → Tracks (release_allocation t u a) (front ++ back)
release-Tracks t u a front back h = record {
  users_exact = λ v. ground (
    arith,
    release_allocation_user t u a v,
    h.users_exact v,
    held_by_user-middle v u a front back,
  );
  ips_exact = λ b.
      ground
        (arith, release_allocation_ip t u a b, h.ips_exact b, held_by_ip-middle b u a front back);
  total_exact = ground (
    arith,
    release_allocation_total t u a,
    h.total_exact,
    length-middle u a front back,
    h.users_exact u,
    held_by_user-middle u u a front back,
    beq_refl u,
  );
  user_cap = λ v.
      ground (
        arith,
        release_allocation_limits t u a,
        h.user_cap v,
        held_by_user-middle v u a front back,
      );
  ip_cap = λ b.
      ground
        (arith, release_allocation_limits t u a, h.ip_cap b, held_by_ip-middle b u a front back);
}

-- Every call keeps the tracker in step with the ledger.
pub Step-Tracks : {t s : Tracker} {l m : Ledger} → Step t l s m → Tracks t l → Tracks s m
Step-Tracks {t} {l = l} (grant u a g) h = grant-Tracks t l u a h g
Step-Tracks {t} {l = l} (refuse u a g) h = keep-Tracks t _ l h (refuse-Keeps t u a g)
Step-Tracks {t} (release u a front back e) h =
    release-Tracks t u a front back (subst (Tracks t) e h)
Step-Tracks {t} {l = l} (credential u now later) h =
    keep-Tracks t _ l h (allow_credential_keeps t u now later)
Step-Tracks {t} {l = l} (bandwidth u bytes) h =
    keep-Tracks t _ l h (allow_bandwidth_keeps t u bytes)

-- A history of calls from a new tracker.
pub data History (limits : Limits) : Tracker → Ledger → Type 0 where
  start : History limits (new_tracker limits) []
  next : {t s : Tracker} {l m : Ledger} → History limits t l → Step t l s m → History limits s m

new_tracker-Tracks : (limits : Limits) → Tracks (new_tracker limits) []
unfolding new_tracker user_of ip_of total_of
new_tracker-Tracks limits = record {
  users_exact = λ u. simp get-empty;
  ips_exact = λ a. simp get-empty;
  total_exact = sum_by-empty (λ (q : UserQuota). q.allocations);
  user_cap = λ u h. absurd (omega arith);
  ip_cap = λ a h. absurd (omega arith);
}

-- After any history in which only live allocations are released, the tracker counts for every user
-- and every address exactly the live allocations, their number is what `ActiveAllocations`
-- reports, and no user and no address has more of them than the limit allows.
pub History-Tracks :
    {limits : Limits} {t : Tracker} {l : Ledger}
    → History limits t l
    → Tracks t l × (active_allocations t ≡ length l)
unfolding active_allocations total_of
History-Tracks {limits} start = let h = new_tracker-Tracks limits in (h, h.total_exact)
History-Tracks (next past step) =
    let h = Step-Tracks step (History-Tracks past).0 in (h, h.total_exact)
