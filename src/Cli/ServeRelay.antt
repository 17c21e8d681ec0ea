-- ===== src/Cli/ServeRelay.antt =====
-- cmd/turnfly/main.go: `serve-relay`, from its flags to the end of the relay proxy.
use turnfly.Prelude.{Bool, true, not, ◌&&◌, none, some, List, [], ◌∷◌, if◌then◌else◌}
use turnfly.Text.{Bytes, codes, is_empty}
use turnfly.Result.{Result, ok, err}
use turnfly.Relay.Tunnel.{
  TunnelConfig, TunnelError, Quic, Tunnel, new_tunnel, connect, close, is_connected,
}
use turnfly.Relay.Proxy
use turnfly.Relay.Proxy.{Proxy, Event, new_proxy, default_session_timeout, run}

pub data RelayError : Type 0 where
  peer_required : RelayError
  load_key_pair : Bytes → RelayError
  generate_cert : Bytes → RelayError
  tunnel_connect : TunnelError → RelayError

pub record TlsConfig (Cert : Type 0) : Type 0 where
  pub certificate : Cert
  pub next_protos : List Bytes
  pub insecure_skip_verify : Bool

abbrev pub relay_tls : {Cert : Type 0} → Cert → TlsConfig Cert
relay_tls cert = record {
  certificate = cert;
  next_protos = codes "turnfly-relay" ∷ [];
  insecure_skip_verify = true;
}

-- `buildRelayTLS`; `load_pair` is `tls.LoadX509KeyPair`, `self_signed` what
-- `relay.GenerateSelfSignedCert` gives.
pub build_relay_tls :
    {Cert : Type 0}
    → (Bytes → Bytes → Result Bytes Cert)
    → Result Bytes Cert
    → Bytes
    → Bytes
    → Result RelayError (TlsConfig Cert)
build_relay_tls load_pair self_signed cert_file key_file =
    if not (is_empty cert_file) && not (is_empty key_file)
    then elim (load_pair cert_file key_file) [
      | err message ↦ err (load_key_pair message)
      | ok cert ↦ ok (relay_tls cert)
    ]
    else elim self_signed [
      | err message ↦ err (generate_cert message)
      | ok cert ↦ ok (relay_tls cert)
    ]

-- What the proxy reads of a tunnel.
pub proxy_view : {Conn : Type 0} → Tunnel Conn → Proxy.Tunnel
proxy_view t = record { connected = is_connected t; peer = t.peer }

pub record RelayFlags : Type 0 where
  pub listen_addr : Bytes
  pub peer_addr : Bytes
  pub server : Bool
  pub cert_file : Bytes
  pub key_file : Bytes

-- `quic` is the connections that quic-go makes with a TLS configuration.
module _ {Cert Listener Conn Stream : Type 0} (quic : TlsConfig Cert → Quic Listener Conn Stream)
    (load_pair : Bytes → Bytes → Result Bytes Cert) (self_signed : Result Bytes Cert) where
  abbrev tunnel_config : RelayFlags → TunnelConfig
  tunnel_config flags = record {
    listen_addr = if is_empty flags.listen_addr then codes ":4443" else flags.listen_addr;
    peer_addr = flags.peer_addr;
    is_server = flags.server;
  }

  -- The proxy over the events of its loop, and the tunnel behind the deferred `Close`.
  pub relay_over : Quic Listener Conn Stream → Tunnel Conn → List Event → Tunnel Conn × Proxy
  relay_over q t events =
      ((close q t).0, run (new_proxy (proxy_view t) default_session_timeout) events)

  -- The command behind the TLS configuration.
  pub relay_with :
      RelayFlags → List Event → TlsConfig Cert → Result RelayError (Tunnel Conn × Proxy)
  relay_with flags events tls =
      let (t, actions, e) = connect (quic tls) new_tunnel (tunnel_config flags) in
      elim e [ some e' ↦ err (tunnel_connect e') | none ↦ ok (relay_over (quic tls) t events) ]

  -- The command, on the events that the loop of the proxy meets.
  pub serve_relay : RelayFlags → List Event → Result RelayError (Tunnel Conn × Proxy)
  serve_relay flags events =
      if is_empty flags.peer_addr
      then err peer_required
      else elim (build_relay_tls load_pair self_signed flags.cert_file flags.key_file) [
        | err e ↦ err e
        | ok tls ↦ relay_with flags events tls
      ]
