-- ===== src/Text/Strings.antt =====
-- Package strings, on ASCII text: `TrimSpace`, `TrimRight` with one character, `EqualFold`.
use turnfly.Prelude.{
  ℕ, ◌+◌, Bool, true, false, ◌&&◌, ◌||◌, [], ◌∷◌, leb, ◌==◌, map, if◌then◌else◌, Option, none, some,
}
use turnfly.Text.{Bytes, beq}

-- Space, and tab to carriage return.
abbrev pub is_space : ℕ → Bool
is_space c = c == 32 || (leb 9 c && leb c 13)

unfoldable pub trim_left : (ℕ → Bool) → Bytes → Bytes
trim_left p [] = []
trim_left p (c ∷ s) = elim (p c) [ true ↦ trim_left p s | false ↦ c ∷ s ]

-- What is left when the characters at the end that the test accepts are gone.
unfoldable pub trim_right : (ℕ → Bool) → Bytes → Bytes
trim_right p [] = []
trim_right p (c ∷ s) = elim (trim_right p s) [ [] ↦ if p c then [] else c ∷ [] | d ∷ t ↦ c ∷ d ∷ t ]

-- `strings.TrimSpace`
unfoldable pub trim_space : Bytes → Bytes
trim_space s = trim_right is_space (trim_left is_space s)

-- `strings.TrimRight(s, "/")`
unfoldable pub trim_slashes : Bytes → Bytes
trim_slashes s = trim_right (λ c. c == 47) s

abbrev pub lower : ℕ → ℕ
lower c = if leb 65 c && leb c 90 then c + 32 else c

-- `strings.EqualFold`
unfoldable pub equal_fold : Bytes → Bytes → Bool
equal_fold s t = beq (map lower s) (map lower t)

-- `strings.SplitN(s, sep, 2)` with a separator of one character: the two parts around the first
-- one, if there is one.
unfoldable pub split_first : ℕ → Bytes → Option (Bytes × Bytes)
split_first sep [] = none
split_first sep (c ∷ s) = elim (c == sep) [
  | true ↦ some ([], s)
  | false ↦ elim (split_first sep s) [ none ↦ none | some (a, b) ↦ some (c ∷ a, b) ]
]
