-- ===== src/Relay/Tunnel/Tests.antt =====
-- The tunnel at concrete peers.
use turnfly.Prelude.{ℕ, ◌≡◌, refl, true, false, none, some, []}
use turnfly.Text.{codes}
use turnfly.Result.{ok, err}
use turnfly.Sockets.{count_opened, count_closed}
use turnfly.Relay.Tunnel.{
  TunnelConfig, Quic, Tunnel, new_tunnel, connect, dial, send_datagram, receive_datagram,
  open_stream, not_connected,
}
use turnfly.Relay.Tunnel.Connecting.{Connects, connect_lem}

-- Connections are numbers, and each datagram that is sent comes back.
abbrev loopback : Quic ℕ ℕ ℕ
loopback = record {
  listen_addr = λ a. ok 1;
  accept = λ l. ok 2;
  dial_addr = λ a. ok 3;
  remote_addr = λ c. codes "fd00::2";
  send = λ c bytes. none;
  receive = λ c. ok (codes "hi");
  open_sync = λ c. ok 4;
  accept_stream = λ c. err (codes "no stream");
  close = λ c. none;
}

abbrev cfg : TunnelConfig
cfg = record { listen_addr = codes ":4443"; peer_addr = codes "fd00::1"; is_server = true }

abbrev fresh : Tunnel ℕ
fresh = record { conn = none; peer = [] }

connect_lem_example :
    let (t, actions, e) = connect loopback fresh cfg in
    (count_opened actions ≡ count_closed actions) × Connects loopback fresh cfg t e
connect_lem_example = connect_lem loopback fresh cfg

abbrev dialed : Tunnel ℕ
dialed = (connect loopback fresh (record cfg { is_server = false })).0

dialed_peer : dialed.peer ≡ codes "fd00::1"
unfolding connect dial
dialed_peer = refl

echoed : receive_datagram loopback dialed ≡ ok (codes "hi")
unfolding connect dial receive_datagram
echoed = refl

no_connection : send_datagram loopback (new_tunnel {Conn = ℕ}) (codes "hi") ≡ some not_connected
unfolding send_datagram new_tunnel
no_connection = refl

opened_stream : open_stream loopback dialed ≡ ok 4
unfolding connect dial open_stream
opened_stream = refl
