-- ===== src/Map/Totals.antt =====
-- Sums over the values of a map, and its size.
use turnfly.Prelude.{ℕ, ◌≤◌, ◌+◌, ◌≡◌, refl, Option, none, some, List, [], ◌∷◌, arith, length, map}
use turnfly.Text.{Bytes}
use turnfly.Map.{Map, empty, get, put, size, values, lookup, assign}

-- `for _, v := range m { total += f(v) }`
abbrev pub sum_by {ℓ} : {V : Type ℓ} → (V → ℕ) → List V → ℕ
sum_by f [] = 0
sum_by f (v ∷ vs) = f v + sum_by f vs

-- What a key contributes to a sum.
abbrev pub weight {ℓ} : {V : Type ℓ} → (V → ℕ) → Option V → ℕ
weight f none = 0
weight f (some v) = f v

module _ {ℓ} {V : Type ℓ} where
  abbrev vals : List (Bytes × V) → List V
  vals = map (λ (e : Bytes × V). e.1)

  sum_by-assign :
      (f : V → ℕ) (k : Bytes) (v : V) (m : List (Bytes × V))
      → sum_by f (vals (assign k v m)) + weight f (lookup k m) ≡ sum_by f (vals m) + f v
  unfolding lookup assign
  sum_by-assign f k v [] = omega arith
  sum_by-assign f k v ((j, w) ∷ m) = ground (arith, sum_by-assign f k v m)

  -- An assignment changes a sum by the difference of the new and the old value at its key.
  pub sum_by-put :
      (f : V → ℕ) (m : Map V) (k : Bytes) (v : V)
      → sum_by f (values (put m k v)) + weight f (get m k) ≡ sum_by f (values m) + f v
  unfolding values put get
  sum_by-put f m k v = sum_by-assign f k v m.entries

  pub sum_by-empty : (f : V → ℕ) → sum_by f (values (empty {V = V})) ≡ 0
  unfolding values empty
  sum_by-empty f = refl

  weight-le-lookup :
      (f : V → ℕ) (k : Bytes) (m : List (Bytes × V)) → weight f (lookup k m) ≤ sum_by f (vals m)
  unfolding lookup
  weight-le-lookup f k [] = omega arith
  weight-le-lookup f k ((j, w) ∷ m) = ground (arith, weight-le-lookup f k m)

  pub weight-le-sum_by :
      (f : V → ℕ) (m : Map V) (k : Bytes) → weight f (get m k) ≤ sum_by f (values m)
  unfolding values get
  weight-le-sum_by f m k = weight-le-lookup f k m.entries

  length-assign :
      (k : Bytes) (v : V) (m : List (Bytes × V))
      → length (assign k v m) + weight (λ _. 1) (lookup k m) ≡ length m + 1
  unfolding lookup assign
  length-assign k v [] = omega arith
  length-assign k v ((j, w) ∷ m) = ground (arith, length-assign k v m)

  pub size-put :
      (m : Map V) (k : Bytes) (v : V) → size (put m k v) + weight (λ _. 1) (get m k) ≡ size m + 1
  unfolding size put get
  size-put m k v = length-assign k v m.entries
