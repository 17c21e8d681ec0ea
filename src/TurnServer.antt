-- ===== src/TurnServer.antt =====
-- internal/turnserver/turnserver.go: the TURN server that answers with the ephemeral credentials.
-- The sockets and the server behind it are those of package net and of pion/turn.
pub mod Issued
pub mod Listeners
pub mod Tests
use turnfly.Prelude.{ℕ, ◌+◌, Option, none, some, List, [], ◌∷◌, ◌++◌, map}
use turnfly.Int.{ℤ}
use turnfly.Text.{Bytes}
use turnfly.Result.{Result, ok, err}
use turnfly.Sockets.{Action, opened, closed}
use turnfly.Auth.{validate_username}

pub record TurnConfig : Type 0 where
  pub listen_addr : Bytes
  pub realm : Bytes
  pub shared_secret : Bytes

pub data ServerError : Type 0 where
  resolve_addr : Bytes → Bytes → ServerError
  listen_udp : Bytes → Bytes → ServerError
  create_server : Bytes → ServerError
  close_server : Bytes → ServerError
  close_listener : Bytes → ServerError

-- `generate_auth_key username realm password` is `turn.GenerateAuthKey`.
module _ (generate_auth_key : Bytes → Bytes → Bytes → Bytes) where
  -- The `AuthHandler` of the server at the wall time `now`, with the metric
  -- `turn_auth_failures_total` before and behind it.
  pub auth_handler : TurnConfig → ℤ → ℕ → Bytes → ℕ × Option Bytes
  auth_handler cfg now failures username = elim (validate_username now username) [
    | none ↦ (failures + 1, none)
    | some user_id ↦ (failures, some (generate_auth_key username cfg.realm cfg.shared_secret))
  ]

-- What package net and pion/turn answer: to `net.ResolveUDPAddr` and `net.ListenUDP`, to
-- `turn.NewServer` on the listener, and to the two `Close`. The `Close` of a TURN server closes
-- connections itself. The `Close` of a listener depends on what was opened and closed before.
pub record Platform (Listener TurnServer : Type 0) : Type 0 where
  pub resolve : Bytes → Option Bytes
  pub listen : Bytes → Result Bytes Listener
  pub new_server : TurnConfig → Listener → Result Bytes TurnServer
  pub close_turn : TurnServer → List Listener × Option Bytes
  pub close_socket : List (Action Listener) → Listener → Option Bytes
  pub local_addr : Listener → Bytes

module _ {Listener TurnServer : Type 0} (net : Platform Listener TurnServer) where
  pub record Server : Type 0 where
    pub cfg : TurnConfig
    pub udp_listener : Option Listener
    pub turn_server : Option TurnServer

  -- `New`
  pub new : TurnConfig → Server
  new cfg = record { cfg = cfg; udp_listener = none; turn_server = none }

  -- The second half of `(*Server).Shutdown`, behind the calls before it.
  pub close_udp :
      List (Action Listener) → Option Listener → List (Action Listener) × Option ServerError
  close_udp before none = (before, none)
  close_udp before (some l) = (
    before ++ (closed l ∷ []),
    elim (net.close_socket before l) [ none ↦ none | some message ↦ some (close_listener message) ],
  )

  pub shutdown_parts :
      List (Action Listener)
      → Option TurnServer
      → Option Listener
      → List (Action Listener) × Option ServerError
  unfolding close_udp
  shutdown_parts before none listener = close_udp before listener
  shutdown_parts before (some t) listener =
      let (connections, failure) = net.close_turn t in
      let between = before ++ map closed connections in
      elim failure [
        | some message ↦ (between, some (close_server message))
        | none ↦ close_udp between listener
      ]

  -- `(*Server).Shutdown`, behind the calls before it.
  pub shutdown : List (Action Listener) → Server → List (Action Listener) × Option ServerError
  unfolding shutdown_parts
  shutdown before s = shutdown_parts before s.turn_server s.udp_listener

  -- `(*Server).Start` behind the call of `net.ListenUDP`, until the context is done.
  pub serve : Server → Listener → Server × List (Action Listener) × Option ServerError
  serve s l =
      let listening = record s { udp_listener = some l } in
      elim (net.new_server s.cfg l) [
        | err message ↦ (listening, opened l ∷ closed l ∷ [], some (create_server message))
        | ok t ↦
            let started = record listening { turn_server = some t } in
            let (actions, e) = shutdown (opened l ∷ []) started in (started, actions, e)
      ]

  -- `(*Server).Start` in a context that is done some time.
  pub start : Server → Server × List (Action Listener) × Option ServerError
  unfolding serve
  start s = elim (net.resolve s.cfg.listen_addr) [
    | some message ↦ (s, [], some (resolve_addr s.cfg.listen_addr message))
    | none ↦ elim (net.listen s.cfg.listen_addr) [
      | err message ↦ (s, [], some (listen_udp s.cfg.listen_addr message))
      | ok l ↦ serve s l
    ]
  ]

  -- `(*Server).Addr`
  pub addr : Server → Option Bytes
  addr s = elim s.udp_listener [ none ↦ none | some l ↦ some (net.local_addr l) ]
