-- ===== src/Relay/Proxy.antt =====
-- internal/relay/proxy.go: the relay proxy between a TURN server and its QUIC tunnel.
pub mod Delivery
pub mod Accounting
pub mod Tests
use turnfly.Prelude.{
  ℕ, zero, suc, ◌+◌, ◌*◌, ◌/◌, Bool, true, false, Option, none, some, List, [], ◌∷◌, ◌++◌, ltb,
  length, drop, if◌then◌else◌,
}
use turnfly.Int.{ℤ, pos, negsuc, ◌+ℤ◌, sub_ℕ, wrap_int64}
use turnfly.Text.{Bytes, codes}
use turnfly.Result.{Result, ok, err}
use turnfly.Clock.{Reading, wall_sub, minute, millisecond}
use turnfly.Relay.Frame.{Frame, FrameError, encode, decode_frame}
use turnfly.Relay.Session
use turnfly.Relay.Session.{
  Manager, Session, new_manager, create, store, record_packet_in, record_packet_out, u64,
}

-- What the proxy reads of its `Tunnel`: whether a connection is set, and the peer's address.
pub record Tunnel : Type 0 where
  pub connected : Bool
  pub peer : Bytes

pub record Proxy : Type 0 where
  pub tunnel : Tunnel
  pub sessions : Manager
  pub bytes_in : ℕ
  pub bytes_out : ℕ
  pub packets_dropped : ℕ
  pub rtt_samples : List ℤ

pub data ForwardError : Type 0 where
  encode_frame : FrameError → ForwardError
  send_datagram : Bytes → ForwardError
  not_connected : ForwardError

-- `DefaultProxyConfig().SessionTimeout`
abbrev pub default_session_timeout : ℤ
default_session_timeout = pos (5 * minute)

-- `NewSessionID`, on what `rand.Read` gives for the 16 bytes.
pub new_session_id : Result Bytes Bytes → Result Bytes Bytes
new_session_id (ok id) = ok id
new_session_id (err message) = err (codes "generate session id: " ++ message)

-- `NewProxy`
unfoldable pub new_proxy : Tunnel → ℤ → Proxy
unfolding new_manager
new_proxy tunnel timeout = record {
  tunnel = tunnel;
  sessions = new_manager timeout;
  bytes_in = 0;
  bytes_out = 0;
  packets_dropped = 0;
  rtt_samples = [];
}

abbrev pub max_rtt_samples : ℕ
max_rtt_samples = 100

-- The window of round-trip times keeps the last hundred samples.
unfoldable pub push_rtt : List ℤ → ℤ → List ℤ
push_rtt samples rtt =
    let longer = samples ++ (rtt ∷ []) in
    if ltb max_rtt_samples (length longer) then drop 1 longer else longer

-- The session of a packet: the registered one, or one created for it.
abbrev pub ensure_session : Proxy → Bytes → ℕ → Manager × Session
ensure_session p id now = elim (Session.get p.sessions id) [
  | none ↦ create p.sessions id p.tunnel.peer now
  | some s ↦ (p.sessions, s)
]

-- The part of `handleDatagram` behind the decoding. Its readings of the clock are one instant.
unfoldable pub receive_frame : Proxy → ℕ → Frame → Reading → Proxy
unfolding push_rtt
receive_frame p size frame now =
    let (registry, s) = ensure_session p frame.session_id now.mono in
    record p {
      bytes_in = u64 (p.bytes_in + size);
      sessions =
          store registry frame.session_id (record_packet_in (length frame.payload) now.mono s);
      rtt_samples = push_rtt p.rtt_samples (wall_sub now.wall frame.timestamp);
    }

-- `(*Proxy).handleDatagram`
unfoldable pub handle_datagram : Proxy → Bytes → Reading → Proxy × Option FrameError
handle_datagram p bytes now = elim (decode_frame bytes) [
  | err e ↦ (p, some e)
  | ok frame ↦ (receive_frame p (length bytes) frame now, none)
]

-- The session of a forwarded packet, if it is registered, counts the packet.
abbrev pub count_forwarded : Manager → Bytes → ℕ → ℕ → Manager
count_forwarded m id n now = elim (Session.get m id) [
  | none ↦ m
  | some s ↦ store m id (record_packet_out n now s)
]

-- The frame of a packet, stamped with the time at which it is forwarded.
abbrev pub packet_frame : Bytes → ℕ → ℕ → Bytes → Reading → Frame
packet_frame id flow direction payload now = record {
  session_id = id;
  flow_id = flow;
  direction = direction;
  timestamp = now.wall;
  payload = payload;
}

-- `send` is `SendDatagram` of the QUIC connection, on the state `N` of the network: what it makes
-- of it, and its error if it does not take the datagram.
module _ {N : Type 0} (send : N → Bytes → N × Option Bytes) where
  -- `(*Tunnel).SendDatagram`
  unfoldable pub tunnel_send : N → Tunnel → Bytes → N × Option ForwardError
  tunnel_send n t bytes =
      if t.connected
      then (
        (send n bytes).0,
        elim (send n bytes).1 [ none ↦ none | some message ↦ some (send_datagram message) ],
      )
      else (n, some not_connected)

  -- `(*Proxy).ForwardPacket`
  unfoldable pub forward_packet :
      N → Proxy → Bytes → ℕ → ℕ → Bytes → Reading → N × Proxy × Option ForwardError
  unfolding tunnel_send
  forward_packet n p id flow direction payload now =
      elim (encode (packet_frame id flow direction payload now)) [
        | err e ↦ (n, p, some (encode_frame e))
        | ok bytes ↦
            let (n', failure) = tunnel_send n p.tunnel bytes in
            elim failure [
              | some e ↦ (n', p, some e)
              | none ↦ (
                n',
                record p {
                  bytes_out = u64 (p.bytes_out + length bytes);
                  sessions = count_forwarded p.sessions id (length payload) now.mono;
                },
                none,
              )
            ]
      ]

-- What the rounds of the loop of `Run` meet: a tick of the collector, a datagram, a receive that
-- failed or timed out, or the end of the context.
pub data Event : Type 0 where
  tick : Reading → Event
  datagram : Bytes → Reading → Event
  receive_failed : Event
  cancelled : Event

-- A datagram that is refused is counted.
unfoldable pub after_datagram : Proxy × Option FrameError → Proxy
after_datagram (p, none) = p
after_datagram (p, some e) = record p { packets_dropped = u64 (p.packets_dropped + 1) }

-- One round: the proxy after it, and whether `Run` returns. `Tunnel.Close` leaves `conn` set.
unfoldable pub step : Proxy → Event → Proxy × Bool
unfolding after_datagram
step p (tick now) = (record p { sessions = (Session.gc p.sessions now.mono).0 }, false)
step p (datagram bytes now) = (after_datagram (handle_datagram p bytes now), false)
step p receive_failed = (p, false)
step p cancelled = (p, true)

-- `(*Proxy).Run` over the events that it meets: the rounds after its return do not happen.
unfoldable pub run : Proxy → List Event → Proxy
run p [] = p
run p (e ∷ es) = let (q, returned) = step p e in elim returned [ true ↦ q | false ↦ run q es ]

-- `average_rtt_ms` is the dividend and the divisor of `AvgRTTMs`, or nothing where it stays 0.
pub record ProxyStats : Type 0 where
  pub total_bytes_in : ℕ
  pub total_bytes_out : ℕ
  pub total_dropped : ℕ
  pub sessions_active : ℕ
  pub average_rtt_ms : Option (ℤ × ℕ)

-- The sum of the samples, as `time.Duration` adds them.
unfoldable pub sum_rtt : ℤ → List ℤ → ℤ
sum_rtt total [] = total
sum_rtt total (rtt ∷ rest) = sum_rtt (wrap_int64 (total +ℤ rtt)) rest

-- `Duration.Milliseconds`, which rounds towards zero.
unfoldable pub milliseconds : ℤ → ℤ
milliseconds (pos n) = pos (n / millisecond)
milliseconds (negsuc n) = sub_ℕ 0 (suc n / millisecond)

-- `(*Proxy).GetStats`
pub get_stats : Proxy → ProxyStats
unfolding sum_rtt milliseconds
get_stats p = record {
  total_bytes_in = p.bytes_in;
  total_bytes_out = p.bytes_out;
  total_dropped = p.packets_dropped;
  sessions_active = Session.count p.sessions;
  average_rtt_ms =
      if ltb 0 (length p.rtt_samples)
      then some (milliseconds (sum_rtt (pos 0) p.rtt_samples), length p.rtt_samples)
      else none;
}
