-- ===== src/Map.antt =====
-- Go's maps with string keys, as association lists. An assignment replaces the entry of its key
-- or adds one; `range` goes over the entries. Go leaves the order of `range` open, so nothing
-- that is proved of a loop over a map may rest on it.
pub mod Laws
pub mod Totals
pub mod Deletion
use turnfly.Prelude.{
  ℕ, ◌+◌, ◌≡◌, Bool, Option, none, some, List, [], ◌∷◌, length, map, if◌then◌else◌,
}
use turnfly.Text.{Bytes, beq}

pub record Map {ℓ} (V : Type ℓ) : Type ℓ where
  pub entries : List (Bytes × V)

module _ {ℓ} {V : Type ℓ} where
  pub lookup : Bytes → List (Bytes × V) → Option V
  lookup k [] = none
  lookup k ((j, v) ∷ m) = if beq j k then some v else lookup k m

  pub assign : Bytes → V → List (Bytes × V) → List (Bytes × V)
  assign k v [] = (k, v) ∷ []
  assign k v ((j, w) ∷ m) = if beq j k then (j, v) ∷ m else (j, w) ∷ assign k v m

  pub without : Bytes → List (Bytes × V) → List (Bytes × V)
  without k [] = []
  without k ((j, w) ∷ m) = let rest = without k m in if beq j k then rest else (j, w) ∷ rest

  -- `make(map[string]V)`
  unfoldable pub empty : Map V
  empty = record { entries = [] }

  -- `v, ok := m[k]`
  unfoldable pub get : Map V → Bytes → Option V
  unfolding lookup beq
  get m k = lookup k m.entries

  -- `m[k] = v`
  unfoldable pub put : Map V → Bytes → V → Map V
  unfolding assign beq
  put m k v = record { entries = assign k v m.entries }

  -- `delete(m, k)`
  unfoldable pub erase : Map V → Bytes → Map V
  unfolding without beq
  erase m k = record { entries = without k m.entries }

  -- `len(m)`
  unfoldable pub size : Map V → ℕ
  size m = length m.entries

  -- What a `range` loop over the values sees.
  unfoldable pub values : Map V → List V
  values m = map (λ (e : Bytes × V). e.1) m.entries

  -- The loop `for k, v := range m { if drop(v) { delete(m, k); n++ } }` over the entries that are
  -- left.
  delete_loop : (V → Bool) → List (Bytes × V) → Map V → ℕ → Map V × ℕ
  unfolding erase
  delete_loop drop [] m n = (m, n)
  delete_loop drop ((k, v) ∷ rest) m n =
      delete_loop drop rest (if drop v then erase m k else m) (if drop v then n + 1 else n)

  unfoldable pub delete_where : (V → Bool) → Map V → Map V × ℕ
  unfolding delete_loop
  delete_where drop m = delete_loop drop m.entries m 0

-- Each key has one entry.
abbrev pub Distinct {ℓ} : {V : Type ℓ} → List (Bytes × V) → Type ℓ
Distinct [] = Unit
Distinct ((k, v) ∷ m) = (lookup k m ≡ none) × Distinct m

pub record IsMap {ℓ} {V : Type ℓ} (m : Map V) : Type ℓ where
  pub distinct : Distinct m.entries
