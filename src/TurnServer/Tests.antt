-- ===== src/TurnServer/Tests.antt =====
-- The TURN server on a platform that refuses it, and on one that serves.
use turnfly.Prelude.{
  ltb, true, List, [], ◌∷◌, ℕ, ◌+◌, ◌≡◌, refl, none, some, ◌++◌, arith, if◌then◌else◌,
}
use turnfly.Text.{codes}
use turnfly.Result.{ok, err}
use turnfly.Sockets.{Action, opened, closed}
use turnfly.TurnServer.{
  TurnConfig, Platform, new, start, addr, serve, shutdown, shutdown_parts, close_udp,
}
use turnfly.TurnServer.Listeners.{Documented, Ends, start-Ends}

abbrev cfg : TurnConfig
cfg = record { listen_addr = codes "0.0.0.0:3478"; realm = codes "r"; shared_secret = codes "s" }

abbrev refusing : Platform ℕ ℕ
refusing = record {
  resolve = λ a. none;
  listen = λ a. ok 7;
  new_server = λ c l. err (codes "no relay ports");
  close_turn = λ t. ([], none);
  close_socket = λ before l. none;
  local_addr = λ l. codes "0.0.0.0:3478";
}

-- A platform whose server closes its connection, and whose second `Close` of it is an error.
abbrev closes_of : List (Action ℕ) → ℕ
closes_of [] = 0
closes_of (opened l ∷ actions) = closes_of actions
closes_of (closed l ∷ actions) = 1 + closes_of actions

abbrev serving : Platform ℕ ℕ
serving = record refusing {
  new_server = λ c l. ok l;
  close_turn = λ t. (t ∷ [], none);
  close_socket = λ before l.
      if ltb 0 (closes_of before) then some (codes "use of closed connection") else none;
}

closes_of-append :
    (xs ys : List (Action ℕ)) (l : ℕ) → ltb 0 (closes_of (xs ++ (closed l ∷ ys))) ≡ true
closes_of-append [] ys l = ground arith
closes_of-append (opened k ∷ xs) ys l = closes_of-append xs ys l
closes_of-append (closed k ∷ xs) ys l = ground arith

serving-Documented : Documented serving
serving-Documented = record {
  managed = λ c l t e. ground (arith, e);
  once = λ before after l e. ground (arith, e, closes_of-append before after l);
}

start-Ends_example :
    let (s, actions, e) = start serving (new serving cfg) in Ends cfg.listen_addr actions e
unfolding new
start-Ends_example = start-Ends serving serving-Documented (new serving cfg)

twice : (start serving (new serving cfg)).1 ≡ opened 7 ∷ closed 7 ∷ closed 7 ∷ []
unfolding start serve shutdown shutdown_parts close_udp new
twice = refl

-- The address of a server that did not start is that of its closed listener.
stale_addr : addr refusing (start refusing (new refusing cfg)).0 ≡ some (codes "0.0.0.0:3478")
unfolding addr start new
stale_addr = refl
