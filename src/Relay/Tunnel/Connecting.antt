-- ===== src/Relay/Tunnel/Connecting.antt =====
-- A tunnel over its connection and its close.
use turnfly.Prelude.{
  Bool, ◌≡◌, refl, true, false, Option, none, some, inl, inr, Option-cases, if◌then◌else◌,
}
use turnfly.Text.{Bytes}
use turnfly.Result.{Result-cases}
use turnfly.Sockets.{count_opened, count_closed}
use turnfly.Relay.Tunnel.{
  TunnelConfig, TunnelError, Quic, Tunnel, accept_peer, listen, dial, connect, close, is_connected,
}

module _ {Listener Conn Stream : Type 0} (q : Quic Listener Conn Stream) where
  -- What `Connect` leaves: on an error the tunnel as it was, else one with a connection, which
  -- stays in place when it is closed.
  abbrev pub Connects : Tunnel Conn → TunnelConfig → Tunnel Conn → Option TunnelError → Type 0
  Connects t cfg t' (some e) = t' ≡ t
  Connects t cfg t' none =
      ((c : Conn) × (t'.conn ≡ some c)
        × (t'.peer ≡ (if cfg.is_server then q.remote_addr c else cfg.peer_addr)))
      × (is_connected t' ≡ true)
      × (is_connected (close q t').0 ≡ true)

  close-is_connected :
      (c : Conn) (peer : Bytes)
      → is_connected (close q (record { conn = some c; peer = peer })).0 ≡ true
  unfolding close is_connected
  close-is_connected c peer = elim (Option-cases (q.close c)) [
    | inl e ↦ rw (e, close)
    | inr (message, e) ↦ rw (e, close)
  ]

  module _ (t : Tunnel Conn) (cfg : TunnelConfig) where
    listen_lem :
        cfg.is_server ≡ true
        → let (t', actions, e) = listen q t cfg in
          (count_opened actions ≡ count_closed actions) × Connects t cfg t' e
    unfolding listen accept_peer is_connected
    listen_lem s = elim (Result-cases (q.listen_addr cfg.listen_addr)) [
      | inl (message, e) ↦ rw (e, listen) (refl, refl)
      | inr (l, e) ↦ elim (Result-cases (q.accept l)) [
        | inl (message, d) ↦ rw (e, listen, accept_peer, d) (refl, refl)
        | inr (c, d) ↦
            rw (e, listen, accept_peer, d, s)
              (refl, ((c, refl, refl), refl, close-is_connected c (q.remote_addr c)))
      ]
    ]

    dial_lem :
        cfg.is_server ≡ false
        → let (t', actions, e) = dial q t cfg in
          (count_opened actions ≡ count_closed actions) × Connects t cfg t' e
    unfolding dial is_connected
    dial_lem s = elim (Result-cases (q.dial_addr cfg.peer_addr)) [
      | inl (message, e) ↦ rw (e, dial) (refl, refl)
      | inr (c, e) ↦
          rw (e, dial, s) (refl, ((c, refl, refl), refl, close-is_connected c cfg.peer_addr))
    ]

  connect_case :
      (t : Tunnel Conn) (cfg : TunnelConfig) (b : Bool)
      → cfg.is_server ≡ b
      → let (t', actions, e) = (if b then listen q t cfg else dial q t cfg) in
        (count_opened actions ≡ count_closed actions) × Connects t cfg t' e
  connect_case t cfg true s = listen_lem t cfg s
  connect_case t cfg false s = dial_lem t cfg s

  -- `Connect` closes the listener that it opens, on every path. If it fails, the tunnel is as it
  -- was; if it succeeds, the tunnel has a connection, and its peer is the address of the remote end
  -- for a server and the configured one for a client. `IsConnected` still holds behind `Close`.
  pub connect_lem :
      (t : Tunnel Conn) (cfg : TunnelConfig)
      → let (t', actions, e) = connect q t cfg in
        (count_opened actions ≡ count_closed actions) × Connects t cfg t' e
  unfolding connect
  connect_lem t cfg = connect_case t cfg cfg.is_server refl
