-- ===== src/Quota.antt =====
-- internal/quota/quota.go: limits for users and IP addresses. A quota that the tracker looks up
-- is a pointer into its map, so an update of it is an update of its entry.
pub mod Entries
pub mod Allocations
pub mod Keeps
pub mod Ledger
pub mod Credentials
pub mod Bandwidth
pub mod Tests
use turnfly.Prelude.{
  ℕ, ◌+◌, ◌-◌, ◌*◌, Bool, true, false, Option, none, some, List, [], ◌∷◌, ltb, leb, if◌then◌else◌,
}
use turnfly.Int.{ℤ, pos, ◌+ℤ◌, ltb_ℤ, leb_ℤ, wrap_int64}
use turnfly.Text.{Bytes}
use turnfly.Clock.{since, max_duration, minute}
use turnfly.Map
use turnfly.Map.{Map}
use turnfly.Map.Totals.{sum_by}

pub record Limits : Type 0 where
  pub max_allocations_per_user : ℤ
  pub max_allocations_per_ip : ℤ
  pub max_bandwidth_per_user : ℤ
  pub max_credential_requests_per_minute : ℤ
  pub max_allocation_lifetime : ℤ

-- `DefaultLimits`
abbrev pub default_limits : Limits
default_limits = record {
  max_allocations_per_user = pos 10;
  max_allocations_per_ip = pos 5;
  max_bandwidth_per_user = pos (1024 * 1024);
  max_credential_requests_per_minute = pos 60;
  max_allocation_lifetime = pos (10 * minute);
}

-- The counts are raised only below a limit that is an `int`, and lowered only above 0, so no `int`
-- wraps. `last_credential` is `none` for the zero time.
pub record UserQuota : Type 0 where
  pub allocations : ℕ
  pub bytes_per_second : ℤ
  pub last_credential : Option ℕ
  pub cred_count : ℕ

pub record IpQuota : Type 0 where
  pub ip_allocations : ℕ

-- `packets_dropped` is the metric `turn_packets_dropped_total`, which the tracker raises.
pub record Tracker : Type 0 where
  pub limits : Limits
  pub users : Map UserQuota
  pub ips : Map IpQuota
  pub packets_dropped : ℕ

abbrev pub zero_user : UserQuota
zero_user = record {
  allocations = 0;
  bytes_per_second = pos 0;
  last_credential = none;
  cred_count = 0;
}

abbrev pub zero_ip : IpQuota
zero_ip = record { ip_allocations = 0 }

-- `NewTracker`
unfoldable pub new_tracker : Limits → Tracker
new_tracker limits = record {
  limits = limits;
  users = Map.empty;
  ips = Map.empty;
  packets_dropped = 0;
}

-- `uq, ok := t.users[userID]; if !ok { uq = &userQuota{}; t.users[userID] = uq }`
pub ensure_user : Map UserQuota → Bytes → Map UserQuota × UserQuota
ensure_user m user = elim (Map.get m user) [
  | none ↦ (Map.put m user zero_user, zero_user)
  | some q ↦ (m, q)
]

pub ensure_ip : Map IpQuota → Bytes → Map IpQuota × IpQuota
ensure_ip m ip = elim (Map.get m ip) [ none ↦ (Map.put m ip zero_ip, zero_ip) | some q ↦ (m, q) ]

-- `(*Tracker).AllowAllocation`
pub allow_allocation : Tracker → Bytes → Bytes → Tracker × Bool
allow_allocation t user ip =
    let (users, uq) = ensure_user t.users user in
    let (ips, iq) = ensure_ip t.ips ip in
    if leb_ℤ t.limits.max_allocations_per_user (pos uq.allocations)
    then (record t { users = users; packets_dropped = t.packets_dropped + 1 }, false)
    else if leb_ℤ t.limits.max_allocations_per_ip (pos iq.ip_allocations)
    then (record t { users = users; ips = ips; packets_dropped = t.packets_dropped + 1 }, false)
    else (
      record t {
        users = Map.put users user (record uq { allocations = uq.allocations + 1 });
        ips = Map.put ips ip (record iq { ip_allocations = iq.ip_allocations + 1 });
      },
      true,
    )

-- The two halves of `(*Tracker).ReleaseAllocation`.
pub release_user : Map UserQuota → Bytes → Map UserQuota
release_user m user = elim (Map.get m user) [
  | none ↦ m
  | some q ↦
      if ltb 0 q.allocations
      then Map.put m user (record q { allocations = q.allocations - 1 })
      else m
]

pub release_ip : Map IpQuota → Bytes → Map IpQuota
release_ip m ip = elim (Map.get m ip) [
  | none ↦ m
  | some q ↦
      if ltb 0 q.ip_allocations
      then Map.put m ip (record q { ip_allocations = q.ip_allocations - 1 })
      else m
]

pub release_allocation : Tracker → Bytes → Bytes → Tracker
release_allocation t user ip = record t {
  users = release_user t.users user;
  ips = release_ip t.ips ip;
}

-- `time.Since(uq.lastCredential)`: from the zero time it saturates.
abbrev pub since_credential : ℕ → Option ℕ → ℕ
since_credential now none = max_duration
since_credential now (some t) = since now t

-- A new window starts more than a minute after the last one. `later` is read after `now`.
pub reset_window : UserQuota → ℕ → ℕ → UserQuota
reset_window q now later =
    if ltb minute (since_credential now q.last_credential)
    then record q { cred_count = 0; last_credential = some later }
    else q

-- `if uq.lastCredential.IsZero() { uq.lastCredential = time.Now() }`
abbrev pub stamp : Option ℕ → ℕ → Option ℕ
stamp none later = some later
stamp (some t) later = some t

-- `(*Tracker).AllowCredential`
pub allow_credential : Tracker → Bytes → ℕ → ℕ → Tracker × Bool
allow_credential t user now later =
    let (users, q) = ensure_user t.users user in
    let q' = reset_window q now later in
    if leb_ℤ t.limits.max_credential_requests_per_minute (pos q'.cred_count)
    then (record t { users = Map.put users user q' }, false)
    else (
      record t {
        users = Map.put users user (record q' {
          cred_count = q'.cred_count + 1;
          last_credential = stamp q'.last_credential later;
        });
      },
      true,
    )

-- `(*Tracker).AllowBandwidth`, with the additions of `int64`.
pub allow_bandwidth : Tracker → Bytes → ℤ → Tracker × Bool
allow_bandwidth t user bytes =
    let (users, q) = ensure_user t.users user in
    let sum = wrap_int64 (q.bytes_per_second +ℤ bytes) in
    if leb_ℤ t.limits.max_bandwidth_per_user (pos 0)
    then (record t { users = users }, true)
    else if ltb_ℤ t.limits.max_bandwidth_per_user sum
    then (record t { users = users }, false)
    else (record t { users = Map.put users user (record q { bytes_per_second = sum }) }, true)

-- `(*Tracker).ActiveAllocations`
pub active_allocations : Tracker → ℕ
active_allocations t = sum_by (λ (q : UserQuota). q.allocations) (Map.values t.users)

-- `(*Tracker).ActiveUsers`
pub active_users : Tracker → ℕ
active_users t =
    sum_by (λ (q : UserQuota). if ltb 0 q.allocations then 1 else 0) (Map.values t.users)
