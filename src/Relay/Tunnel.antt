-- ===== src/Relay/Tunnel.antt =====
-- internal/relay/tunnel.go: the QUIC connection between two relay peers. The connection and the
-- listener are those of quic-go.
pub mod Connecting
pub mod Tests
use turnfly.Prelude.{Bool, true, false, Option, none, some, List, [], ◌∷◌, if◌then◌else◌}
use turnfly.Text.{Bytes}
use turnfly.Result.{Result, ok, err}
use turnfly.Sockets.{Action, opened, closed}

pub record TunnelConfig : Type 0 where
  pub listen_addr : Bytes
  pub peer_addr : Bytes
  pub is_server : Bool

pub data TunnelError : Type 0 where
  quic_listen : Bytes → TunnelError
  quic_accept : Bytes → TunnelError
  quic_dial : Bytes → TunnelError
  quic : Bytes → TunnelError
  not_connected : TunnelError

-- What quic-go answers: to `quic.ListenAddr`, to `Accept` on its listener, to `quic.DialAddr`, and
-- to the calls on a connection.
pub record Quic (Listener Conn Stream : Type 0) : Type 0 where
  pub listen_addr : Bytes → Result Bytes Listener
  pub accept : Listener → Result Bytes Conn
  pub dial_addr : Bytes → Result Bytes Conn
  pub remote_addr : Conn → Bytes
  pub send : Conn → Bytes → Option Bytes
  pub receive : Conn → Result Bytes Bytes
  pub open_sync : Conn → Result Bytes Stream
  pub accept_stream : Conn → Result Bytes Stream
  pub close : Conn → Option Bytes

pub record Tunnel (Conn : Type 0) : Type 0 where
  pub conn : Option Conn
  pub peer : Bytes

-- `NewTunnel`
pub new_tunnel : {Conn : Type 0} → Tunnel Conn
new_tunnel = record { conn = none; peer = [] }

abbrev wrap_error : {A : Type 0} → Result Bytes A → Result TunnelError A
wrap_error (ok a) = ok a
wrap_error (err message) = err (quic message)

module _ {Listener Conn Stream : Type 0} (q : Quic Listener Conn Stream) where
  -- `(*Tunnel).listen` behind `quic.ListenAddr`.
  pub accept_peer :
      Tunnel Conn → Listener → Tunnel Conn × List (Action Listener) × Option TunnelError
  accept_peer t l = elim (q.accept l) [
    | err message ↦ (t, opened l ∷ closed l ∷ [], some (quic_accept message))
    | ok c ↦ (record { conn = some c; peer = q.remote_addr c }, opened l ∷ closed l ∷ [], none)
  ]

  -- `(*Tunnel).listen`
  pub listen :
      Tunnel Conn → TunnelConfig → Tunnel Conn × List (Action Listener) × Option TunnelError
  unfolding accept_peer
  listen t cfg = elim (q.listen_addr cfg.listen_addr) [
    | err message ↦ (t, [], some (quic_listen message))
    | ok l ↦ accept_peer t l
  ]

  -- `(*Tunnel).dial`
  pub dial : Tunnel Conn → TunnelConfig → Tunnel Conn × List (Action Listener) × Option TunnelError
  dial t cfg = elim (q.dial_addr cfg.peer_addr) [
    | err message ↦ (t, [], some (quic_dial message))
    | ok c ↦ (record { conn = some c; peer = cfg.peer_addr }, [], none)
  ]

  -- `(*Tunnel).Connect`
  pub connect :
      Tunnel Conn → TunnelConfig → Tunnel Conn × List (Action Listener) × Option TunnelError
  connect t cfg = if cfg.is_server then listen t cfg else dial t cfg

  -- `(*Tunnel).SendDatagram`
  pub send_datagram : Tunnel Conn → Bytes → Option TunnelError
  send_datagram t bytes = elim t.conn [
    | none ↦ some not_connected
    | some c ↦ elim (q.send c bytes) [ none ↦ none | some message ↦ some (quic message) ]
  ]

  -- `(*Tunnel).ReceiveDatagram`
  pub receive_datagram : Tunnel Conn → Result TunnelError Bytes
  receive_datagram t = elim t.conn [ none ↦ err not_connected | some c ↦ wrap_error (q.receive c) ]

  -- `(*Tunnel).OpenStream`
  pub open_stream : Tunnel Conn → Result TunnelError Stream
  open_stream t = elim t.conn [ none ↦ err not_connected | some c ↦ wrap_error (q.open_sync c) ]

  -- `(*Tunnel).AcceptStream`
  pub accept_stream : Tunnel Conn → Result TunnelError Stream
  accept_stream t = elim t.conn [
    | none ↦ err not_connected
    | some c ↦ wrap_error (q.accept_stream c)
  ]

  -- `(*Tunnel).Close`, which leaves the connection in its field.
  pub close : Tunnel Conn → Tunnel Conn × Option TunnelError
  close t = elim t.conn [
    | none ↦ (t, none)
    | some c ↦ elim (q.close c) [ none ↦ (t, none) | some message ↦ (t, some (quic message)) ]
  ]

-- `(*Tunnel).IsConnected`
pub is_connected : {Conn : Type 0} → Tunnel Conn → Bool
is_connected t = elim t.conn [ none ↦ false | some c ↦ true ]
