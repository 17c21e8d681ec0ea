-- ===== src/Relay/Session.antt =====
-- internal/relay/session.go: the registry of relay sessions. A session that the registry hands
-- out is a pointer into it, so an update of a session is an update of its entry.
pub mod Expiry
pub mod Tests
use turnfly.Prelude.{
  ℕ, ◌+◌, ◌%◌, ◌^◌, Bool, true, false, Option, none, some, List, ltb, if◌then◌else◌,
}
use turnfly.Int.{ℤ, pos, ltb_ℤ, leb_ℤ}
use turnfly.Text.{Bytes}
use turnfly.Clock.{since}
use turnfly.Map
use turnfly.Map.{Map}

pub data SessionState : Type 0 where
  active closing closed : SessionState

pub record SessionStats : Type 0 where
  pub packets_in : ℕ
  pub packets_out : ℕ
  pub bytes_in : ℕ
  pub bytes_out : ℕ
  pub packets_dropped : ℕ
  pub stats_created_at : ℕ
  pub last_active : ℕ

pub record Session : Type 0 where
  pub id : Bytes
  pub state : SessionState
  pub peer_addr : Bytes
  pub stats : SessionStats
  pub open stats use *
  pub created_at : ℕ
  pub timeout : ℤ

abbrev pub u64 : ℕ → ℕ
u64 n = n % 2 ^ 64

-- `(*Session).IsExpired`
unfoldable pub is_expired : ℕ → Session → Bool
unfolding since
is_expired now s =
    if leb_ℤ s.timeout (pos 0) then false else ltb_ℤ s.timeout (pos (since now s.last_active))

-- `(*Session).Touch`
abbrev pub touch : ℕ → Session → Session
touch now s = record s { stats = record s.stats { last_active = now } }

-- `(*Session).RecordPacketIn`
unfoldable pub record_packet_in : ℕ → ℕ → Session → Session
record_packet_in n now s = touch now (record s {
  stats = record s.stats { packets_in = u64 (s.packets_in + 1); bytes_in = u64 (s.bytes_in + n) };
})

-- `(*Session).RecordPacketOut`
unfoldable pub record_packet_out : ℕ → ℕ → Session → Session
record_packet_out n now s = touch now (record s {
  stats = record s.stats {
    packets_out = u64 (s.packets_out + 1);
    bytes_out = u64 (s.bytes_out + n);
  };
})

-- `(*Session).RecordDrop`
pub record_drop : Session → Session
record_drop s = record s {
  stats = record s.stats { packets_dropped = u64 (s.packets_dropped + 1) };
}

pub record Manager : Type 0 where
  pub sessions : Map Session
  pub default_timeout : ℤ

unfoldable pub new_manager : ℤ → Manager
new_manager timeout = record { sessions = Map.empty; default_timeout = timeout }

abbrev pub new_session : Manager → Bytes → Bytes → ℕ → Session
new_session m id peer now = record {
  id = id;
  state = active;
  peer_addr = peer;
  stats = record {
    packets_in = 0;
    packets_out = 0;
    bytes_in = 0;
    bytes_out = 0;
    packets_dropped = 0;
    stats_created_at = now;
    last_active = now;
  };
  created_at = now;
  timeout = m.default_timeout;
}

-- `(*Manager).Create`: an entry under the same ID is replaced.
unfoldable pub create : Manager → Bytes → Bytes → ℕ → Manager × Session
create m id peer now =
    let s = new_session m id peer now in (record m { sessions = Map.put m.sessions id s }, s)

-- `(*Manager).Get`
unfoldable pub get : Manager → Bytes → Option Session
get m id = Map.get m.sessions id

-- A change of the session that a pointer from the registry stands for.
unfoldable pub store : Manager → Bytes → Session → Manager
store m id s = record m { sessions = Map.put m.sessions id s }

-- `(*Manager).Close`
pub close : Manager → Bytes → Manager × Bool
unfolding get store
close m id = elim (get m id) [
  | none ↦ (m, false)
  | some s ↦ (store m id (record s { state = closed }), true)
]

-- `(*Manager).Delete`
pub delete : Manager → Bytes → Manager
delete m id = record m { sessions = Map.erase m.sessions id }

-- `(*Manager).List`
pub list : Manager → List Session
list m = Map.values m.sessions

-- `(*Manager).Count`
unfoldable pub count : Manager → ℕ
count m = Map.size m.sessions

-- `(*Manager).GC`, whose loop reads the clock at one instant.
unfoldable pub gc : Manager → ℕ → Manager × ℕ
unfolding is_expired
gc m now =
    let (left, removed) = Map.delete_where (is_expired now) m.sessions in
    (record m { sessions = left }, removed)
