-- ===== src/Cli/ServeTurn/Group.antt =====
-- cmd/turnfly/main.go: the goroutines of `runServeTurn` in their errgroup, from their start to
-- `g.Wait`. What happens to them is a list of events, in any order that package context, errgroup
-- and net/http allow: a goroutine that returns an error cancels the context, and so does a signal;
-- `ListenAndServe` never returns nil, and it returns `ErrServerClosed` only behind `Shutdown`.
pub mod Marks
pub mod Ending
mod Tests
use turnfly.Prelude.{
  Bool, true, false, not, ◌&&◌, ◌||◌, Option, none, some, List, [], ◌∷◌, ◌++◌, if◌then◌else◌,
}
use turnfly.Text.{Bytes, codes}
use turnfly.TurnServer.{
  ServerError, resolve_addr, listen_udp, create_server, close_server, close_listener,
}
use turnfly.Cli.ServeTurn.{GroupError, cancelled, server_closed, failed, group_result}

-- The text of an error of the TURN server.
pub server_text : ServerError → Bytes
server_text (resolve_addr addr message) = codes "resolve udp addr " ++ addr ++ codes ": " ++ message
server_text (listen_udp addr message) = codes "listen udp " ++ addr ++ codes ": " ++ message
server_text (create_server message) = codes "create turn server: " ++ message
server_text (close_server message) = codes "close turn server: " ++ message
server_text (close_listener message) = codes "close udp listener: " ++ message

-- What the goroutine of the TURN server returns, from what `Start` returns.
pub turn_result : Option ServerError → Option GroupError
unfolding server_text
turn_result none = none
turn_result (some e) = some (failed (server_text e))

-- Whether `Start` waits for the context before it returns this.
pub is_waiting : Option ServerError → Bool
is_waiting (some (resolve_addr addr message)) = false
is_waiting (some (listen_udp addr message)) = false
is_waiting (some (create_server message)) = false
is_waiting e = true

-- What `ListenAndServe` returns: `ErrServerClosed` or another error.
pub data HttpEnd : Type 0 where
  closed : HttpEnd
  broken : Bytes → HttpEnd

-- What the goroutine of the control API returns.
pub http_result : HttpEnd → Option GroupError
http_result closed = none
http_result (broken message) = some (failed (codes "http server: " ++ message))

-- What the goroutine of the shutdown returns, from what `Shutdown` returns.
pub shutdown_result : Option Bytes → Option GroupError
shutdown_result none = none
shutdown_result (some message) = some (failed message)

-- The goroutine of the shutdown waits for the context, then for `Shutdown`.
pub data Closer : Type 0 where
  idle : Closer
  closing : Closer
  returned : Closer

abbrev pub is_idle : Closer → Bool
is_idle idle = true
is_idle c = false

abbrev pub is_returned : Closer → Bool
is_returned returned = true
is_returned c = false

-- Whether the context is done, the first error that a goroutine returned, and which goroutines
-- have returned.
pub record Group : Type 0 where
  pub done : Bool
  pub first : Option GroupError
  pub turn_returned : Bool
  pub http_returned : Bool
  pub closer : Closer

-- `errgroup.WithContext` and the three calls of `g.Go`.
pub new_group : Group
new_group = record {
  done = false;
  first = none;
  turn_returned = false;
  http_returned = false;
  closer = idle;
}

pub data Event : Type 0 where
  signalled : Event
  turn_returns : Event
  http_returns : HttpEnd → Event
  shutdown_begins : Event
  shutdown_returns : Option Bytes → Event

-- A goroutine returns: the group keeps the first error and cancels the context.
pub collect : Option GroupError → Group → Group
collect none g = g
collect (some e) g = record g {
  done = true;
  first = elim g.first [ none ↦ some e | some e' ↦ some e' ];
}

-- `ListenAndServe` returns `ErrServerClosed` only once `Shutdown` is called.
pub can_end : HttpEnd → Closer → Bool
can_end closed c = not (is_idle c)
can_end (broken message) c = true

-- `end` is what `Start` returns in the end. An event that cannot happen gives none.
module _ (end : Option ServerError) where
  pub step : Group → Event → Option Group
  unfolding collect can_end turn_result http_result shutdown_result is_waiting
  step g signalled = some (record g { done = true })
  step g turn_returns =
      if not g.turn_returned && (not (is_waiting end) || g.done)
      then some (collect (turn_result end) (record g { turn_returned = true }))
      else none
  step g (http_returns e) =
      if not g.http_returned && can_end e g.closer
      then some (collect (http_result e) (record g { http_returned = true }))
      else none
  step g shutdown_begins =
      if is_idle g.closer && g.done then some (record g { closer = closing }) else none
  step g (shutdown_returns e) = elim g.closer [
    | idle ↦ none
    | closing ↦ some (collect (shutdown_result e) (record g { closer = returned }))
    | returned ↦ none
  ]

  pub run : Group → List Event → Option Group
  unfolding step
  run g [] = some g
  run g (e ∷ es) = elim (step g e) [ none ↦ none | some g' ↦ run g' es ]

-- `g.Wait` returns once every goroutine has.
pub is_over : Group → Bool
is_over g = g.turn_returned && g.http_returned && is_returned g.closer

-- What `runServeTurn` returns behind `g.Wait`.
pub wait_result : Group → Option Bytes
unfolding group_result
wait_result g = group_result g.first
