-- ===== src/FlyDeploy/Wanted.antt =====
-- internal/flydeploy/deployer.go: the two maps that `Deploy` builds, of the wanted regions and of
-- the machines by their region.
use mathlib.Core.List.{Memᴰ}
use mathlib.Core.List.Memᴰ.{head, tail}
use turnfly.Prelude.{
  ◌≡◌, refl, sym, Bool, true, false, ◌||◌, List, [], ◌∷◌, All, All-imp, if◌then◌else◌, inl, inr,
  Bool-cases, arith,
}
use turnfly.Text.{Bytes, beq, beq_iff, is_empty}
use turnfly.Map
use turnfly.Map.{Map}
use turnfly.Map.Laws.{get-put, put-All}
use turnfly.FlyDeploy.Types.{Machine}
use turnfly.FlyDeploy.Plan.{by_region, desired_regions, is_desired}

-- Whether a region stands in the configuration, letter by letter.
abbrev pub contains : Bytes → List Bytes → Bool
contains r [] = false
contains r (x ∷ xs) = beq x r || contains r xs

pub desired_regions_lem :
    (m : Map Bool) (rs : List Bytes) (r : Bytes)
    → is_desired (desired_regions m rs) r ≡ (is_desired m r || contains r rs)
unfolding desired_regions
desired_regions_lem m [] r = ground arith
desired_regions_lem m (x ∷ rs) r =
    ground (arith, desired_regions_lem (Map.put m x true) rs r, get-put m x r true)

-- An entry of a region.
abbrev pub EntryOf : (Machine → Type 0) → Bytes × Machine → Type 0
EntryOf Q e = Q e.1 × (e.1.region ≡ e.0)

pub by_region-All :
    (Q : Machine → Type 0) (m : Map Machine) (xs : List Machine)
    → All (EntryOf Q) m.entries
    → All Q xs
    → All (EntryOf Q) (by_region m xs).entries
unfolding by_region
by_region-All Q m [] h q = h
by_region-All Q m (x ∷ xs) h q = elim (Bool-cases (is_empty x.region)) [
  | inl e ↦ by_region-All Q (if is_empty x.region then m else Map.put m x.region x) xs (rw e h) q.1
  | inr e ↦
      by_region-All Q (if is_empty x.region then m else Map.put m x.region x) xs
        (rw e (put-All (EntryOf Q) m x.region x (λ j f. (q.0, sym ((beq_iff j x.region).0 f))) h))
        q.1
]

pub no_entries : (Q : Bytes × Machine → Type 0) → All Q (Map.empty {V = Machine}).entries
unfolding Map.empty
no_entries Q = tt

pub All-self : {A : Type 0} (xs : List A) → All (λ x. Memᴰ x xs) xs
All-self [] = tt
All-self (x ∷ xs) =
    (head refl, All-imp (λ y. Memᴰ y xs) (λ y. Memᴰ y (x ∷ xs)) xs (λ y m. tail m) (All-self xs))
