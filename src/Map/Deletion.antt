-- ===== src/Map/Deletion.antt =====
-- A `range` loop that deletes the entries that pass a test leaves exactly the others.
use turnfly.Prelude.{
  ℕ, ◌+◌, ◌≡◌, refl, ◌∙◌, ap, subst, Bool, false, Option, none, some, List, [], ◌∷◌, ◌++◌, arith,
  length, inl, inr, Bool-cases, if◌then◌else◌, append_assoc,
}
use turnfly.Text.{Bytes, beq, beq_iff, beq_refl}
use turnfly.Map.{Map, get, size, erase, lookup, without, Distinct, IsMap, delete_loop, delete_where}
use turnfly.Map.Laws.{beq_symm}

module _ {ℓ} {V : Type ℓ} where
  without-absent : (k : Bytes) (m : List (Bytes × V)) → lookup k m ≡ none → without k m ≡ m
  unfolding lookup without
  without-absent k [] h = refl
  without-absent k ((j, w) ∷ m) h = ground (arith, without-absent k m)

  absent_middle :
      (j k : Bytes) (v : V) (front m : List (Bytes × V))
      → lookup j (front ++ ((k, v) ∷ m)) ≡ none
      → (beq k j ≡ false) × (lookup j (front ++ m) ≡ none)
  unfolding lookup
  absent_middle j k v [] m h = ground arith
  absent_middle j k v ((i, w) ∷ front) m h = ground (arith, absent_middle j k v front m)

  -- Deleting the first entry that is left takes it out from behind those that were kept.
  without-behind :
      (k : Bytes) (v : V) (front m : List (Bytes × V))
      → Distinct (front ++ ((k, v) ∷ m))
      → (without k (front ++ ((k, v) ∷ m)) ≡ front ++ m) × Distinct (front ++ m)
  unfolding without
  without-behind k v [] m d = rw (beq_refl k) (without-absent k m d.0, d.1)
  without-behind k v ((j, w) ∷ front) m d =
      let (other, absent) = absent_middle j k v front m d.0 in
      let (same, rest) = without-behind k v front m d.1 in
      (ground (arith, beq_symm j k), (absent, rest))

-- The entries that a test does not drop.
abbrev pub keep {ℓ} : {V : Type ℓ} → (V → Bool) → List (Bytes × V) → List (Bytes × V)
keep drop [] = []
keep drop ((k, v) ∷ m) = if drop v then keep drop m else (k, v) ∷ keep drop m

abbrev pub count_dropped {ℓ} : {V : Type ℓ} → (V → Bool) → List (Bytes × V) → ℕ
count_dropped drop [] = 0
count_dropped drop ((k, v) ∷ m) = (if drop v then 1 else 0) + count_dropped drop m

-- What a deletion leaves at a key.
abbrev pub surviving {ℓ} : {V : Type ℓ} → (V → Bool) → Option V → Option V
surviving drop none = none
surviving drop (some v) = if drop v then none else some v

module _ {ℓ} {V : Type ℓ} (drop : V → Bool) where
  abbrev pruned : List (Bytes × V) → ℕ → Map V × ℕ
  pruned es n = (record { entries = es }, n)

  delete_loop_lem :
      (front es : List (Bytes × V)) (n : ℕ)
      → Distinct (front ++ es)
      → delete_loop drop es (record { entries = front ++ es }) n
        ≡ pruned (front ++ keep drop es) (n + count_dropped drop es)
  unfolding delete_loop erase
  delete_loop_lem front [] n d = let e : n ≡ n + 0 = omega arith in ap (pruned (front ++ [])) e
  delete_loop_lem front ((k, v) ∷ m) n d = elim (Bool-cases (drop v)) [
    | inl e ↦
        let (same, rest) = without-behind k v front m d in
        let one : n + 1 + count_dropped drop m ≡ n + (1 + count_dropped drop m) = omega arith in
        rw (e, same) (delete_loop_lem front m (n + 1) rest ∙ ap (pruned (front ++ keep drop m)) one)
    | inr e ↦
        let zero' : n + count_dropped drop m ≡ n + (0 + count_dropped drop m) = omega arith in
        let shift : front ++ ((k, v) ∷ m) ≡ (front ++ ((k, v) ∷ [])) ++ m = simp append_assoc in
        let shift' : (front ++ ((k, v) ∷ [])) ++ keep drop m ≡ front ++ ((k, v) ∷ keep drop m) =
          simp append_assoc in
        rw (e, shift)
          (delete_loop_lem (front ++ ((k, v) ∷ [])) m n (subst Distinct shift d)
            ∙ (ap (λ es. pruned es (n + count_dropped drop m)) shift'
                ∙ ap (pruned (front ++ ((k, v) ∷ keep drop m))) zero'))
  ]

  -- The loop leaves the entries that the test does not drop and counts the others.
  pub delete_where_lem :
      (m : Map V)
      → IsMap m
      → delete_where drop m ≡ pruned (keep drop m.entries) (count_dropped drop m.entries)
  unfolding delete_where
  delete_where_lem m h =
      let e : 0 + count_dropped drop m.entries ≡ count_dropped drop m.entries = omega arith in
      delete_loop_lem [] m.entries 0 h.distinct ∙ ap (pruned (keep drop m.entries)) e

  lookup-keep :
      (k : Bytes) (m : List (Bytes × V))
      → Distinct m
      → lookup k (keep drop m) ≡ surviving drop (lookup k m)
  unfolding lookup
  lookup-keep k [] d = refl
  lookup-keep k ((j, v) ∷ m) d =
      ground (arith, lookup-keep k m d.1, beq_iff j k, λ (e : j ≡ k). rw e at d.0)

  keep-absent :
      (k : Bytes) (m : List (Bytes × V)) → lookup k m ≡ none → lookup k (keep drop m) ≡ none
  unfolding lookup
  keep-absent k [] h = refl
  keep-absent k ((j, v) ∷ m) h = ground (arith, keep-absent k m)

  keep-Distinct : (m : List (Bytes × V)) → Distinct m → Distinct (keep drop m)
  keep-Distinct [] d = tt
  keep-Distinct ((k, v) ∷ m) d = ground (arith, keep-absent k m, keep-Distinct m d.1)

  length-keep : (m : List (Bytes × V)) → length (keep drop m) + count_dropped drop m ≡ length m
  length-keep [] = omega arith
  length-keep ((k, v) ∷ m) = ground (arith, length-keep m)

  -- A key keeps its value unless the test drops it; the count is what the size loses.
  pub delete_where-get :
      (m : Map V) (k : Bytes) → IsMap m → get (delete_where drop m).0 k ≡ surviving drop (get m k)
  unfolding get
  delete_where-get m k h = rw (delete_where_lem m h) (lookup-keep k m.entries h.distinct)

  pub delete_where-IsMap : (m : Map V) → IsMap m → IsMap (delete_where drop m).0
  delete_where-IsMap m h =
      rw (delete_where_lem m h) (record { distinct = keep-Distinct m.entries h.distinct })

  pub delete_where-size :
      (m : Map V) → IsMap m → size (delete_where drop m).0 + (delete_where drop m).1 ≡ size m
  unfolding size
  delete_where-size m h = rw (delete_where_lem m h) (length-keep m.entries)
