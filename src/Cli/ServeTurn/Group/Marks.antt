-- ===== src/Cli/ServeTurn/Group/Marks.antt =====
-- What a list of events leaves of the group of `serve-turn`: the work, the first error and the
-- context.
use turnfly.Prelude.{
  ℕ, ◌+◌, ◌≡◌, refl, ap, ◌∙◌, inl, inr, Bool, true, false, not, ◌||◌, Option, none, some, List, [],
  ◌∷◌, ◌++◌, Option-cases, arith, if◌then◌else◌,
}
use turnfly.Text.{Bytes, codes}
use turnfly.TurnServer.{ServerError}
use turnfly.Cli.ServeTurn.{GroupError}
use turnfly.Cli.ServeTurn.Group.{
  server_text, turn_result, HttpEnd, closed, broken, http_result, shutdown_result, Closer, idle,
  closing, returned, is_idle, Group, Event, signalled, turn_returns, http_returns, shutdown_begins,
  shutdown_returns, collect, step, run,
}

-- The goroutines' part of an event: a signal comes from outside.
unfoldable pub is_move : Event → Bool
is_move signalled = false
is_move e = true

unfoldable pub moves : List Event → ℕ
unfolding is_move
moves [] = 0
moves (e ∷ es) = (if is_move e then 1 else 0) + moves es

abbrev pub rounds : Closer → ℕ
rounds idle = 2
rounds closing = 1
rounds returned = 0

-- How many events the goroutines still have before them.
unfoldable pub work : Group → ℕ
work g = (if g.turn_returned then 0 else 1) + (if g.http_returned then 0 else 1) + rounds g.closer

collect-work : (r : Option GroupError) (g : Group) → work (collect r g) ≡ work g
unfolding collect work
collect-work none g = refl
collect-work (some e) g = refl

module _ (end : Option ServerError) where
  -- The message of an event in which a goroutine fails.
  pub failure : Event → Option Bytes
  failure signalled = none
  failure turn_returns = elim end [ none ↦ none | some e ↦ some (server_text e) ]
  failure (http_returns closed) = none
  failure (http_returns (broken message)) = some (codes "http server: " ++ message)
  failure shutdown_begins = none
  failure (shutdown_returns e) = e

  -- The message of the first failure.
  pub first_failure : List Event → Option Bytes
  unfolding failure
  first_failure [] = none
  first_failure (e ∷ es) = elim (failure e) [ none ↦ first_failure es | some m ↦ some m ]

  -- Whether there is a signal or a failure.
  unfoldable pub is_stopped : List Event → Bool
  unfolding failure is_move
  is_stopped [] = false
  is_stopped (e ∷ es) =
      not (is_move e) || (elim (failure e) [ none ↦ is_stopped es | some m ↦ true ])

  step-work :
      (g g' : Group) (e : Event)
      → step end g e ≡ some g'
      → work g' + (if is_move e then 1 else 0) ≡ work g
  unfolding step work is_move
  step-work g g' signalled h = ground (arith, h)
  step-work g g' turn_returns h =
      ground (arith, h, collect-work (turn_result end) (record g { turn_returned = true }))
  step-work g g' (http_returns e) h =
      ground (arith, h, collect-work (http_result e) (record g { http_returned = true }))
  step-work g g' shutdown_begins h = ground (arith, h)
  step-work g g' (shutdown_returns e) h =
      ground (arith, h, collect-work (shutdown_result e) (record g { closer = returned }))

  pub run-work :
      (es : List Event) (g g' : Group) → run end g es ≡ some g' → work g' + moves es ≡ work g
  unfolding run moves
  run-work [] g g' h = ground (arith, h)
  run-work (e ∷ es) g g' h = elim (Option-cases (step end g e)) [
    | inl s ↦ absurd (ground (arith, h, s))
    | inr (g1, s) ↦ ground (arith, h, s, step-work g g1 e, run-work es g1 g')
  ]

  -- The earlier of two errors.
  abbrev pub earlier : Option GroupError → Option GroupError → Option GroupError
  earlier none r = r
  earlier (some e) r = some e

  collect-first : (r : Option GroupError) (g : Group) → (collect r g).first ≡ earlier g.first r
  unfolding collect
  collect-first r g = by_first r g g.first refl
    where
      by_first :
          (r : Option GroupError) (g : Group) (first : Option GroupError)
          → g.first ≡ first
          → (collect r g).first ≡ earlier first r
      by_first none g none h = h
      by_first none g (some e') h = h
      by_first (some e) g none h = rw h refl
      by_first (some e) g (some e') h = rw h refl

  collect-done :
      (m : Option Bytes) (g : Group)
      → (collect (shutdown_result m) g).done ≡ (g.done || (elim m [ none ↦ false | some x ↦ true ]))
  unfolding collect shutdown_result
  collect-done none g = ground arith
  collect-done (some m) g = ground arith

  turn_failure : turn_result end ≡ shutdown_result (failure turn_returns)
  unfolding turn_result shutdown_result failure
  turn_failure = by_end end
    where
      by_end :
          (o : Option ServerError)
          → turn_result o ≡ shutdown_result (elim o [ none ↦ none | some e ↦ some (server_text e) ])
      by_end none = refl
      by_end (some e) = refl

  http_failure : (e : HttpEnd) → http_result e ≡ shutdown_result (failure (http_returns e))
  unfolding http_result shutdown_result failure
  http_failure closed = refl
  http_failure (broken m) = refl

  abbrev is_failing : Event → Bool
  is_failing e = elim (failure e) [ none ↦ false | some m ↦ true ]

  earlier-none : (r : Option GroupError) → earlier r none ≡ r
  earlier-none none = refl
  earlier-none (some e) = refl

  silent : shutdown_result none ≡ none
  unfolding shutdown_result
  silent = refl

  -- What an event makes of the context and of the first error.
  record Marks (g g' : Group) (e : Event) : Type 0 where
    first : g'.first ≡ earlier g.first (shutdown_result (failure e))
    done : g'.done ≡ (g.done || (not (is_move e) || is_failing e))

  collect-Marks :
      (r : Option GroupError) (m : Option Bytes) (g : Group)
      → r ≡ shutdown_result m
      → ((collect r g).first ≡ earlier g.first (shutdown_result m))
        × ((collect r g).done ≡ (g.done || (elim m [ none ↦ false | some x ↦ true ])))
  collect-Marks r m g e = (
    collect-first r g ∙ ap (earlier g.first) e,
    ap (λ x. (collect x g).done) e ∙ collect-done m g,
  )

  step-Marks : (g g' : Group) (e : Event) → step end g e ≡ some g' → Marks g g' e
  unfolding step is_move failure
  step-Marks g g' signalled h = record {
    first = ground (arith, h, silent, earlier-none g.first);
    done = ground (arith, h);
  }
  step-Marks g g' turn_returns h =
      let c =
        collect-Marks (turn_result end) (failure turn_returns) (record g { turn_returned = true })
          turn_failure in
      record { first = ground (arith, h, c.0); done = ground (arith, h, c.1) }
  step-Marks g g' (http_returns e) h =
      let c =
        collect-Marks (http_result e) (failure (http_returns e)) (record g { http_returned = true })
          (http_failure e) in
      record { first = ground (arith, h, c.0); done = ground (arith, h, c.1) }
  step-Marks g g' shutdown_begins h = record {
    first = ground (arith, h, silent, earlier-none g.first);
    done = ground (arith, h);
  }
  step-Marks g g' (shutdown_returns e) h =
      let c = collect-Marks (shutdown_result e) e (record g { closer = returned }) refl in
      record { first = ground (arith, h, c.0); done = ground (arith, h, c.1) }

  earlier_twice :
      (a : Option GroupError) (m n : Option Bytes)
      → earlier (earlier a (shutdown_result m)) (shutdown_result n)
        ≡ earlier a (shutdown_result (elim m [ none ↦ n | some x ↦ some x ]))
  unfolding shutdown_result
  earlier_twice none none n = refl
  earlier_twice none (some x) n = refl
  earlier_twice (some e) m n = refl

  pub run-first :
      (es : List Event) (g g' : Group)
      → run end g es ≡ some g'
      → g'.first ≡ earlier g.first (shutdown_result (first_failure es))
  unfolding run first_failure
  run-first [] g g' h = ground (arith, h, silent, earlier-none g.first)
  run-first (e ∷ es) g g' h = elim (Option-cases (step end g e)) [
    | inl s ↦ absurd (ground (arith, h, s))
    | inr (g1, s) ↦
        run-first es g1 g' (ground (arith, h, s))
        ∙ ap (λ a. earlier a (shutdown_result (first_failure es))) (step-Marks g g1 e s).first
        ∙ earlier_twice g.first (failure e) (first_failure es)
  ]

  pub run-done :
      (es : List Event) (g g' : Group)
      → run end g es ≡ some g'
      → g'.done ≡ (g.done || is_stopped es)
  unfolding run is_stopped
  run-done [] g g' h = ground (arith, h)
  run-done (e ∷ es) g g' h = elim (Option-cases (step end g e)) [
    | inl s ↦ absurd (ground (arith, h, s))
    | inr (g1, s) ↦ ground (arith, h, s, run-done es g1 g', (step-Marks g g1 e s).done)
  ]

  -- The shutdown begins only behind the context.
  abbrev pub IsGuarded : Group → Type 0
  IsGuarded g = (is_idle g.closer || g.done) ≡ true

  step-IsGuarded : (g g' : Group) (e : Event) → step end g e ≡ some g' → IsGuarded g → IsGuarded g'
  unfolding step collect
  step-IsGuarded g g' signalled h i = ground (arith, h, i)
  step-IsGuarded g g' turn_returns h i = ground (arith, h, i, (step-Marks g g' turn_returns h).done)
  step-IsGuarded g g' (http_returns e) h i =
      ground (arith, h, i, (step-Marks g g' (http_returns e) h).done)
  step-IsGuarded g g' shutdown_begins h i = ground (arith, h, i)
  step-IsGuarded g g' (shutdown_returns e) h i =
      ground (arith, h, i, (step-Marks g g' (shutdown_returns e) h).done)

  pub run-IsGuarded :
      (es : List Event) (g g' : Group) → run end g es ≡ some g' → IsGuarded g → IsGuarded g'
  unfolding run
  run-IsGuarded [] g g' h i = ground (arith, h, i)
  run-IsGuarded (e ∷ es) g g' h i = elim (Option-cases (step end g e)) [
    | inl s ↦ absurd (ground (arith, h, s))
    | inr (g1, s) ↦ run-IsGuarded es g1 g' (ground (arith, h, s)) (step-IsGuarded g g1 e s i)
  ]
