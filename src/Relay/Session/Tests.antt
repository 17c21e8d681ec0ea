-- ===== src/Relay/Session/Tests.antt =====
-- The session registry at concrete sessions.
use turnfly.Prelude.{◌+◌, ◌*◌, ◌≡◌, ◌↔◌, true, false, some, none}
use turnfly.Int.{pos, ◌<ℤ◌}
use turnfly.Text.{codes}
use turnfly.Clock.{since, minute}
use turnfly.Map.Laws.{empty-IsMap, put-IsMap}
use turnfly.Relay.Session.{
  Session, Manager, new_manager, new_session, create, get, close, gc, count, is_expired,
}
use turnfly.Relay.Session.Expiry.{is_expired_iff, close_lem, gc_lem, IsRegistry}

abbrev two_sessions : Manager
unfolding new_manager create
two_sessions =
    (create (create (new_manager (pos (5 * minute))) (codes "old") (codes "p") 0).0 (codes "new")
      (codes "p") (4 * minute)).0

two_sessions-IsRegistry : IsRegistry two_sessions
unfolding two_sessions
two_sessions-IsRegistry = put-IsMap _ (codes "new") _ (put-IsMap _ (codes "old") _ empty-IsMap)

old_session : Session
unfolding new_manager
old_session = new_session (new_manager (pos (5 * minute))) (codes "old") (codes "p") 0

is_expired_iff_example : (is_expired (6 * minute) old_session ≡ true) ↔ (
    (pos 0 <ℤ old_session.timeout)
    × (old_session.timeout <ℤ pos (since (6 * minute) old_session.last_active)))
is_expired_iff_example = is_expired_iff (6 * minute) old_session

closed_alone :
    (close two_sessions (codes "old")).1
    ≡ elim (get two_sessions (codes "old")) [ none ↦ false | some s ↦ true ]
closed_alone = (close_lem two_sessions (codes "old") (codes "new")).1

gc_lem_example :
    count (gc two_sessions (6 * minute)).0 + (gc two_sessions (6 * minute)).1 ≡ count two_sessions
gc_lem_example = (gc_lem two_sessions (6 * minute) two_sessions-IsRegistry).1
