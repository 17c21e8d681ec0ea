-- ===== src/Relay.antt =====
-- internal/relay: the frames, the sessions and the proxy of the relay-pair mode.
pub mod Frame
pub mod Session
pub mod Proxy
pub mod Tunnel
pub mod Certificate
