-- ===== src/Map/Laws.antt =====
-- Reading after writing, and that every map that the operations build has one entry for a key.
use turnfly.Prelude.{
  ◌≡◌, refl, true, none, some, List, [], ◌∷◌, arith, inl, inr, Bool-cases, if◌then◌else◌, All,
}
use turnfly.Text.{Bytes, beq, beq_iff, beq_refl}
use turnfly.Map.{Map, empty, get, put, erase, lookup, assign, without, Distinct, IsMap}

pub beq_symm : (s t : Bytes) → beq s t ≡ beq t s
beq_symm s t = ground (arith, beq_iff s t, beq_iff t s)

module _ {ℓ} {V : Type ℓ} where
  pub lookup-nil : (k : Bytes) → lookup {V = V} k [] ≡ none
  unfolding lookup
  lookup-nil k = refl

  pub lookup-cons :
      (k j : Bytes) (v : V) (m : List (Bytes × V))
      → lookup k ((j, v) ∷ m) ≡ (if beq j k then some v else lookup k m)
  unfolding lookup
  lookup-cons k j v m = refl

  pub lookup-assign :
      (k j : Bytes) (v : V) (m : List (Bytes × V))
      → lookup j (assign k v m) ≡ (if beq k j then some v else lookup j m)
  unfolding lookup assign
  lookup-assign k j v [] = refl
  lookup-assign k j v ((i, w) ∷ m) =
      ground (arith, beq_iff k j, beq_iff i k, beq_iff i j, lookup-assign k j v m)

  pub lookup-without :
      (k j : Bytes) (m : List (Bytes × V))
      → lookup j (without k m) ≡ (if beq k j then none else lookup j m)
  unfolding lookup without
  lookup-without k j [] = ground arith
  lookup-without k j ((i, w) ∷ m) =
      ground (arith, beq_iff k j, beq_iff i k, beq_iff i j, lookup-without k j m)

  pub assign-Distinct :
      (k : Bytes) (v : V) (m : List (Bytes × V)) → Distinct m → Distinct (assign k v m)
  unfolding lookup assign
  assign-Distinct k v [] h = (refl, tt)
  assign-Distinct k v ((j, w) ∷ m) h = elim (Bool-cases (beq j k)) [
    | inl e ↦ rw e h
    | inr e ↦ rw e (ground (arith, lookup-assign k j v m, beq_symm j k), assign-Distinct k v m h.1)
  ]

  pub without-Distinct : (k : Bytes) (m : List (Bytes × V)) → Distinct m → Distinct (without k m)
  unfolding lookup without
  without-Distinct k [] h = tt
  without-Distinct k ((j, w) ∷ m) h = elim (Bool-cases (beq j k)) [
    | inl e ↦ rw e (without-Distinct k m h.1)
    | inr e ↦ rw e (ground (arith, lookup-without k j m, beq_symm j k), without-Distinct k m h.1)
  ]

  pub get-empty : (k : Bytes) → get (empty {V = V}) k ≡ none
  unfolding get empty
  get-empty k = refl

  pub get-put :
      (m : Map V) (k j : Bytes) (v : V) → get (put m k v) j ≡ (if beq k j then some v else get m j)
  unfolding get put
  get-put m k j v = lookup-assign k j v m.entries

  pub get-erase :
      (m : Map V) (k j : Bytes) → get (erase m k) j ≡ (if beq k j then none else get m j)
  unfolding get erase
  get-erase m k j = lookup-without k j m.entries

  pub get-put_self : (m : Map V) (k : Bytes) (v : V) → get (put m k v) k ≡ some v
  get-put_self m k v = ground (arith, get-put m k k v, beq_refl k)

  pub empty-IsMap : IsMap (empty {V = V})
  unfolding empty
  empty-IsMap = record { distinct = tt }

  pub put-IsMap : (m : Map V) (k : Bytes) (v : V) → IsMap m → IsMap (put m k v)
  unfolding put
  put-IsMap m k v h = record { distinct = assign-Distinct k v m.entries h.distinct }

  pub erase-IsMap : (m : Map V) (k : Bytes) → IsMap m → IsMap (erase m k)
  unfolding erase
  erase-IsMap m k h = record { distinct = without-Distinct k m.entries h.distinct }

  assign-All {κ} :
      (P : Bytes × V → Type κ) (k : Bytes) (v : V) (m : List (Bytes × V))
      → ((j : Bytes) → beq j k ≡ true → P (j, v))
      → All P m
      → All P (assign k v m)
  unfolding assign
  assign-All P k v [] p h = (p k (beq_refl k), tt)
  assign-All P k v ((j, w) ∷ m) p h = elim (Bool-cases (beq j k)) [
    | inl e ↦ rw e (p j e, h.1)
    | inr e ↦ rw e (h.0, assign-All P k v m p h.1)
  ]

  -- What holds of all entries still holds of them, and of the new one, after an assignment.
  pub put-All {κ} :
      (P : Bytes × V → Type κ) (m : Map V) (k : Bytes) (v : V)
      → ((j : Bytes) → beq j k ≡ true → P (j, v))
      → All P m.entries
      → All P (put m k v).entries
  unfolding put
  put-All P m k v p h = assign-All P k v m.entries p h

  -- A map's entries, looked up.
  pub get-entries : (m : Map V) (k : Bytes) → get m k ≡ lookup k m.entries
  unfolding get
  get-entries m k = refl

pub ruleset map_laws = (get-empty, get-put, get-erase)
