-- ===== src/Cli/ServeTurn/Group/Tests.antt =====
-- The group of `serve-turn` behind a port in use, and behind a signal.
use turnfly.Prelude.{◌≡◌, refl, ◌≤◌, ◌⊎◌, true, not, ◌||◌, Option, none, some, List, [], ◌∷◌}
use turnfly.Text.{codes}
use turnfly.TurnServer.{ServerError, listen_udp}
use turnfly.Cli.ServeTurn.Group.{
  Group, new_group, Event, signalled, turn_returns, http_returns, shutdown_begins, shutdown_returns,
  closed, broken, closing, returned, run, is_over, wait_result,
}
use turnfly.Cli.ServeTurn.{failed}
use turnfly.Cli.ServeTurn.Group.Marks.{moves, first_failure, is_stopped}
use turnfly.Cli.ServeTurn.Group.Ending.{CanMove, wait_result_lem, stops_lem}

abbrev in_use : Option ServerError
in_use = some (listen_udp (codes "0.0.0.0:3478") (codes "address in use"))

-- The TURN server fails, then the shutdown begins and the control API fails too.
abbrev failing : List Event
failing = turn_returns ∷ shutdown_begins ∷ http_returns (broken (codes "reset")) ∷ []

abbrev failed_group : Group
failed_group = record {
  done = true;
  first = some (failed (codes "listen udp 0.0.0.0:3478: address in use"));
  turn_returned = true;
  http_returned = true;
  closer = closing;
}

failing_reached : run in_use new_group failing ≡ some failed_group
unfolding run new_group
failing_reached = refl

wait_result_lem_example :
    (wait_result failed_group ≡ first_failure in_use failing)
    × (not (is_over failed_group) || is_stopped in_use failing ≡ true)
wait_result_lem_example = wait_result_lem in_use failing failed_group failing_reached

abbrev stopping : List Event
stopping =
    signalled ∷ shutdown_begins ∷ http_returns closed ∷ turn_returns ∷ shutdown_returns none ∷ []

abbrev stopped_group : Group
stopped_group = record {
  done = true;
  first = none;
  turn_returned = true;
  http_returned = true;
  closer = returned;
}

stopping_reached : run none new_group stopping ≡ some stopped_group
unfolding run new_group
stopping_reached = refl

-- `Shutdown` first: without it the control API does not stop.
not_yet : run none new_group (signalled ∷ http_returns closed ∷ []) ≡ none
unfolding run new_group
not_yet = refl

stopping_stops : is_stopped none stopping ≡ true
unfolding is_stopped
stopping_stops = refl

stops_lem_example :
    (moves stopping ≤ 4)
    × (((is_over stopped_group ≡ true) × (moves stopping ≡ 4)) ⊎ CanMove none stopped_group)
stops_lem_example = stops_lem none stopping stopped_group stopping_reached stopping_stops
