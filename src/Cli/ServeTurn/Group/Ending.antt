-- ===== src/Cli/ServeTurn/Group/Ending.antt =====
-- How the goroutines of `serve-turn` end, in every order of events.
use turnfly.Prelude.{
  ◌+◌, ◌≤◌, ◌≡◌, refl, ap, ◌∙◌, ◌⊎◌, inl, inr, true, false, not, ◌||◌, Option, none, some, List,
  Bool-cases, arith,
}
use turnfly.Text.{Bytes}
use turnfly.TurnServer.{ServerError}
use turnfly.Cli.ServeTurn.{group_result}
use turnfly.Cli.ServeTurn.Group.{
  turn_result, closed, http_result, shutdown_result, Closer, idle, closing, returned, is_idle,
  is_returned, Group, new_group, Event, turn_returns, http_returns, shutdown_begins,
  shutdown_returns, collect, can_end, step, run, is_over, wait_result,
}
use turnfly.Cli.ServeTurn.Group.Marks.{
  is_move, moves, work, first_failure, is_stopped, run-work, run-first, run-done, run-IsGuarded,
}

over_closed : (g : Group) → is_over g ≡ true → is_idle g.closer ≡ false
unfolding is_over
over_closed g over = by_closer g.closer (ground (arith, over))
  where
    by_closer : (c : Closer) → is_returned c ≡ true → is_idle c ≡ false
    by_closer idle h = cc
    by_closer closing h = cc
    by_closer returned h = refl

shown : (m : Option Bytes) → group_result (shutdown_result m) ≡ m
unfolding group_result shutdown_result
shown none = refl
shown (some m) = refl

Closer-cases : (c : Closer) → (c ≡ idle) ⊎ ((c ≡ closing) ⊎ (c ≡ returned))
Closer-cases idle = inl refl
Closer-cases closing = inr (inl refl)
Closer-cases returned = inr (inr refl)

new_group-work : work new_group ≡ 4
unfolding work new_group
new_group-work = refl

module _ (end : Option ServerError) where
  -- The command returns the message of the first goroutine that failed, and no error if none did;
  -- and it returns only behind a signal or a failure.
  pub wait_result_lem :
      (es : List Event) (g : Group)
      → run end new_group es ≡ some g
      → (wait_result g ≡ first_failure end es) × (not (is_over g) || is_stopped end es ≡ true)
  unfolding wait_result new_group
  wait_result_lem es g h = (
    ap group_result (run-first end es new_group g h) ∙ shown (first_failure end es),
    elim (Bool-cases (is_over g)) [
      | inr f ↦ ground (arith, f)
      | inl over ↦ ground (
        arith,
        over_closed g over,
        run-done end es new_group g h,
        run-IsGuarded end es new_group g h refl,
      )
    ],
  )

  -- An event of a goroutine that can happen.
  abbrev pub CanMove : Group → Type 0
  CanMove g = (e : Event) × (g' : Group) × (is_move e ≡ true) × (step end g e ≡ some g')

  can_move : (g : Group) → g.done ≡ true → ((is_over g ≡ true) × (work g ≡ 0)) ⊎ CanMove g
  unfolding is_over work step is_move can_end
  can_move g d = elim (Bool-cases g.turn_returned) [
    | inr t ↦ inr (
      turn_returns,
      collect (turn_result end) (record g { turn_returned = true }),
      refl,
      ground (arith, t, d),
    )
    | inl t ↦ elim (Bool-cases g.http_returned) [
      | inr w ↦ elim (Closer-cases g.closer) [
        | inl c ↦ inr (shutdown_begins, record g { closer = closing }, refl, ground (arith, c, d))
        | inr (inl c) ↦ inr (
          shutdown_returns none,
          collect (shutdown_result none) (record g { closer = returned }),
          refl,
          ground (arith, c),
        )
        | inr (inr c) ↦ inr (
          http_returns closed,
          collect (http_result closed) (record g { http_returned = true }),
          refl,
          ground (arith, w, c),
        )
      ]
      | inl w ↦ elim (Closer-cases g.closer) [
        | inl c ↦ inr (shutdown_begins, record g { closer = closing }, refl, ground (arith, c, d))
        | inr (inl c) ↦ inr (
          shutdown_returns none,
          collect (shutdown_result none) (record g { closer = returned }),
          refl,
          ground (arith, c),
        )
        | inr (inr c) ↦ inl (ground (arith, t, w, c), ground (arith, t, w, c))
      ]
    ]
  ]

  -- Behind a signal or a failure the goroutines return, in whatever order: they have four events
  -- between them, all of which have happened once every goroutine has returned, and until then one
  -- of them can happen.
  pub stops_lem :
      (es : List Event) (g : Group)
      → run end new_group es ≡ some g
      → is_stopped end es ≡ true
      → (moves es ≤ 4) × (((is_over g ≡ true) × (moves es ≡ 4)) ⊎ CanMove g)
  stops_lem es g h stopped =
      let counted : work g + moves es ≡ 4 = run-work end es new_group g h ∙ new_group-work in
      (
        omega (arith, counted),
        elim (can_move g (ground (arith, run-done end es new_group g h, stopped))) [
          | inl (over, none_left) ↦ inl (over, omega (arith, counted, none_left))
          | inr m ↦ inr m
        ],
      )
