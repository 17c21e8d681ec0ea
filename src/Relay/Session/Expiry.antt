-- ===== src/Relay/Session/Expiry.antt =====
-- The registry: what each operation does to every key, and what the garbage collection removes.
use turnfly.Prelude.{
  ℕ, ◌+◌, ◌≡◌, refl, ◌↔◌, true, false, inl, inr, Option-cases, none, some, arith, if◌then◌else◌,
}
use turnfly.Int.{pos, ◌<ℤ◌}
use turnfly.Text.{Bytes, beq, beq_iff}
use turnfly.Clock.{since}
use turnfly.Map
use turnfly.Map.{IsMap}
use turnfly.Map.Laws.{get-put}
use turnfly.Map.Deletion.{surviving, delete_where-get, delete_where-size, delete_where-IsMap}
use turnfly.Relay.Session.{
  Session, Manager, closed, is_expired, create, new_session, get, store, close, gc, count,
}

-- A session is expired exactly when its timeout is positive and it has been idle for longer.
pub is_expired_iff :
    (now : ℕ) (s : Session)
    → (is_expired now s ≡ true)
      ↔ ((pos 0 <ℤ s.timeout) × (s.timeout <ℤ pos (since now s.last_active)))
unfolding is_expired
is_expired_iff now s = (λ h. ground arith, λ h. ground arith)

abbrev pub IsRegistry : Manager → Type 0
IsRegistry m = IsMap m.sessions

pub get-store :
    (m : Manager) (k j : Bytes) (s : Session)
    → get (store m k s) j ≡ (if beq k j then some s else get m j)
unfolding get store
get-store m k j s = get-put m.sessions k j s

pub get-create :
    (m : Manager) (k j peer : Bytes) (now : ℕ)
    → get (create m k peer now).0 j ≡ (if beq k j then some (new_session m k peer now) else get m j)
unfolding get create
get-create m k j peer now = get-put m.sessions k j _

pub create-session :
    (m : Manager) (k peer : Bytes) (now : ℕ) → (create m k peer now).1 ≡ new_session m k peer now
unfolding create
create-session m k peer now = refl

-- The state of the session under `id` alone changes, to `closed`; the result says whether there
-- is one.
pub close_lem :
    (m : Manager) (id j : Bytes)
    → (get (close m id).0 j ≡ elim (get m j) [
      | none ↦ none
      | some s ↦ if beq id j then some (record s { state = closed }) else some s
    ])
      × ((close m id).1 ≡ elim (get m id) [ none ↦ false | some s ↦ true ])
unfolding close get store
close_lem m id j = elim (Option-cases (Map.get m.sessions id)) [
  | inl e ↦ (ground (arith, beq_iff id j, e), ground (arith, e))
  | inr (s, e) ↦ (
    ground (arith, beq_iff id j, e, get-put m.sessions id j (record s { state = closed })),
    ground (arith, e),
  )
]

-- After a collection a session is there exactly if it was there and had not expired, unchanged;
-- the result counts the sessions that are gone.
pub gc_lem :
    (m : Manager) (now : ℕ)
    → IsRegistry m
    → ((id : Bytes) → get (gc m now).0 id ≡ surviving (is_expired now) (get m id))
      × (count (gc m now).0 + (gc m now).1 ≡ count m)
      × IsRegistry (gc m now).0
unfolding gc get count
gc_lem m now h = (
  λ id. delete_where-get (is_expired now) m.sessions id h,
  delete_where-size (is_expired now) m.sessions h,
  delete_where-IsMap (is_expired now) m.sessions h,
)
