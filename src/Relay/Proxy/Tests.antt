-- ===== src/Relay/Proxy/Tests.antt =====
-- The proxy at concrete packets and events.
use turnfly.Prelude.{◌+◌, ◌≡◌, refl, true, Option, none, some, [], ◌∷◌, ◌++◌, List, arith}
use turnfly.Int.{pos}
use turnfly.Text.{Bytes, codes, beq}
use turnfly.Clock.{Reading}
use turnfly.Relay.Frame.{Frame}
use turnfly.Relay.Frame.Tests.{sample_frame, sample_bytes}
use turnfly.Relay.Session.{record_packet_in, get, u64}
use turnfly.Relay.Proxy.{
  Proxy, Tunnel, Event, tick, datagram, receive_failed, cancelled, new_proxy,
  default_session_timeout, receive_frame, packet_frame, run,
}
use turnfly.Relay.Proxy.Delivery.{receive_frame_lem, session_for}
use turnfly.Relay.Proxy.Accounting.{
  IsCounted, run_counts, run_window, received_bytes, refused_datagrams, samples, last_n,
}

abbrev peer_tunnel : Tunnel
peer_tunnel = record { connected = true; peer = codes "fd00::1" }

abbrev fresh : Proxy
fresh = new_proxy peer_tunnel default_session_timeout

abbrev noon : Reading
noon = record { mono = 5_000_000_000; wall = pos 1_700_000_000_200_000_000 }

-- The network keeps the datagrams that it takes.
abbrev takes_all : List Bytes → Bytes → List Bytes × Option Bytes
takes_all n bytes = (n ++ (bytes ∷ []), none)

abbrev first_packet : Frame
first_packet = packet_frame sample_frame.session_id 513 0 (codes "hi") noon

frame_counted :
    get (receive_frame fresh 35 sample_frame noon).sessions sample_frame.session_id
    ≡ some (record_packet_in 2 noon.mono (session_for fresh sample_frame.session_id noon.mono))
unfolding beq
frame_counted = receive_frame_lem fresh 35 sample_frame noon sample_frame.session_id

abbrev events : List Event
events =
    datagram sample_bytes noon
    ∷ receive_failed
    ∷ datagram (codes "TURN") noon
    ∷ tick noon
    ∷ cancelled
    ∷ datagram sample_bytes noon
    ∷ []

fresh-IsCounted : IsCounted fresh
unfolding new_proxy
fresh-IsCounted = omega arith

run_counts_example :
    ((run fresh events).bytes_in ≡ u64 (fresh.bytes_in + received_bytes events))
    × ((run fresh events).packets_dropped ≡ u64 (fresh.packets_dropped + refused_datagrams events))
run_counts_example = run_counts fresh events fresh-IsCounted

run_window_example : (run fresh events).rtt_samples ≡ last_n 100 ([] ++ samples events)
unfolding new_proxy
run_window_example = run_window fresh [] events refl
