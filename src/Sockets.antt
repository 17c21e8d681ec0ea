-- ===== src/Sockets.antt =====
-- What internal/turnserver and internal/relay do with the listeners of package net and of quic-go:
-- the calls that open and close them, in their order.
use turnfly.Prelude.{ℕ, ◌+◌, List, [], ◌∷◌}

pub data Action (Listener : Type 0) : Type 0 where
  opened : Listener → Action Listener
  closed : Listener → Action Listener

abbrev pub count_opened : {Listener : Type 0} → List (Action Listener) → ℕ
count_opened [] = 0
count_opened (opened l ∷ actions) = 1 + count_opened actions
count_opened (closed l ∷ actions) = count_opened actions

abbrev pub count_closed : {Listener : Type 0} → List (Action Listener) → ℕ
count_closed [] = 0
count_closed (opened l ∷ actions) = count_closed actions
count_closed (closed l ∷ actions) = 1 + count_closed actions
