-- ===== src/TurnServer/Listeners.antt =====
-- The listener of the server over a whole life of it.
use turnfly.Prelude.{◌≡◌, ◌≢◌, Option, none, some, List, [], ◌∷◌, ◌++◌, inl, inr, Option-cases}
use turnfly.Text.{Bytes}
use turnfly.Result.{ok, Result-cases}
use turnfly.Sockets.{Action, opened, closed}
use turnfly.TurnServer.{
  TurnConfig, Platform, Server, ServerError, resolve_addr, listen_udp, create_server, close_server,
  close_listener, close_udp, shutdown_parts, shutdown, serve, start,
}

-- What pion/turn and package net document: the `Close` of a TURN server closes the connection that
-- it was made with, and the `Close` of a closed connection is an error.
pub record Documented {Listener TurnServer : Type 0} (net : Platform Listener TurnServer)
    : Type 0 where
  pub managed :
      (cfg : TurnConfig) (l : Listener) (t : TurnServer)
      → net.new_server cfg l ≡ ok t
      → (net.close_turn t).0 ≡ l ∷ []
  pub once :
      (before after : List (Action Listener)) (l : Listener)
      → net.close_socket (before ++ (closed l ∷ after)) l ≢ none

-- The calls of `Start` that open and close listeners, and its error.
pub data Ends {Listener : Type 0} (addr : Bytes)
    : List (Action Listener) → Option ServerError → Type 0 where
  unresolved : (message : Bytes) → Ends addr [] (some (resolve_addr addr message))
  unopened : (message : Bytes) → Ends addr [] (some (listen_udp addr message))
  refused :
      (l : Listener) (message : Bytes)
      → Ends addr (opened l ∷ closed l ∷ []) (some (create_server message))
  half_closed :
      (l : Listener) (message : Bytes)
      → Ends addr (opened l ∷ closed l ∷ []) (some (close_server message))
  closed_twice :
      (l : Listener) (message : Bytes)
      → Ends addr (opened l ∷ closed l ∷ closed l ∷ []) (some (close_listener message))

module _ {Listener TurnServer : Type 0} (net : Platform Listener TurnServer)
    (doc : Documented net) where
  close_udp-Ends :
      (addr : Bytes) (l : Listener)
      → let (actions, e) = close_udp net (opened l ∷ closed l ∷ []) (some l) in Ends addr actions e
  unfolding close_udp
  close_udp-Ends addr l = elim (Option-cases (net.close_socket (opened l ∷ closed l ∷ []) l)) [
    | inl e ↦ absurd (doc.once (opened l ∷ []) [] l e)
    | inr (message, e) ↦ rw (e, close_udp) (closed_twice l message)
  ]

  shutdown_parts-Ends :
      (addr : Bytes) (t : TurnServer) (l : Listener)
      → (net.close_turn t).0 ≡ l ∷ []
      → let (actions, e) = shutdown_parts net (opened l ∷ []) (some t) (some l) in
        Ends addr actions e
  unfolding shutdown_parts
  shutdown_parts-Ends addr t l h = elim (Option-cases (net.close_turn t).1) [
    | inr (message, e) ↦ rw (e, shutdown_parts) (rw h (half_closed l message))
    | inl e ↦ rw (e, shutdown_parts) (rw h (close_udp-Ends addr l))
  ]

  serve-Ends :
      (s : Server net) (l : Listener) → Ends s.cfg.listen_addr (serve net s l).1 (serve net s l).2
  unfolding serve shutdown
  serve-Ends s l = elim (Result-cases (net.new_server s.cfg l)) [
    | inl (message, e) ↦ rw (e, serve) (refused l message)
    | inr (t, e) ↦
        rw (e, serve) (shutdown_parts-Ends s.cfg.listen_addr t l (doc.managed s.cfg l t e))
  ]

  -- Start never returns without an error: that of the address or of the listener, where it opens
  -- none; that of the TURN server's creation or of its Close, where the listener is closed once; or
  -- else, behind a shutdown in which the TURN server closes its connection, that of the listener's
  -- own Close, which is the second.
  pub start-Ends :
      (s : Server net) → let (s', actions, e) = start net s in Ends s.cfg.listen_addr actions e
  unfolding start
  start-Ends s = elim (Option-cases (net.resolve s.cfg.listen_addr)) [
    | inr (message, e) ↦ rw (e, start) (unresolved message)
    | inl e ↦ elim (Result-cases (net.listen s.cfg.listen_addr)) [
      | inl (message, d) ↦ rw (e, start, d) (unopened message)
      | inr (l, d) ↦ rw (e, start, d) (serve-Ends s l)
    ]
  ]
