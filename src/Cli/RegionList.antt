-- ===== src/Cli/RegionList.antt =====
-- What `parseRegionList` returns.
use turnfly.Prelude.{
  ◌≡◌, refl, ap₂, true, false, List, [], ◌∷◌, map, inl, inr, Bool-cases, arith, All, length, ◌==◌,
}
use turnfly.Text.{Bytes, codes, is_empty}
use turnfly.Text.Strings.{trim_space}
use turnfly.Text.Trimming.{trim_space_again}
use turnfly.Result.{Result, ok, err}
use turnfly.Config.{split_commas}
use turnfly.Cli.{CliError, required, clean_regions, parse_region_list}

-- A region without space around it, and not empty.
abbrev pub IsClean : Bytes → Type 0
IsClean r = (trim_space r ≡ r) × (is_empty r ≡ false)

clean_regions-IsClean : (items : List Bytes) → All IsClean (clean_regions items)
unfolding clean_regions
clean_regions-IsClean [] = tt
clean_regions-IsClean (r ∷ rs) = elim (Bool-cases (is_empty (trim_space r))) [
  | inl e ↦ rw (e, clean_regions) (clean_regions-IsClean rs)
  | inr e ↦ rw (e, clean_regions) ((trim_space_again r, e), clean_regions-IsClean rs)
]

-- Every item is blank.
abbrev pub AllBlank : List Bytes → Type 0
AllBlank = All (λ r. is_empty (trim_space r) ≡ true)

clean_regions-none : (items : List Bytes) → clean_regions items ≡ [] → AllBlank items
unfolding clean_regions
clean_regions-none [] h = tt
clean_regions-none (r ∷ rs) h = elim (Bool-cases (is_empty (trim_space r))) [
  | inl e ↦ (e, clean_regions-none rs (ground (arith, e, h)))
  | inr e ↦ absurd (ground (arith, e, h))
]

trimmed_again : (rs : List Bytes) → All IsClean rs → map trim_space rs ≡ rs
trimmed_again [] h = refl
trimmed_again (r ∷ rs) h = ap₂ ◌∷◌ h.0.0 (trimmed_again rs h.1)

-- The outcomes of the flag `--regions`.
abbrev pub RegionsOf : Bytes → Result CliError (List Bytes) → Type 0
RegionsOf flag (ok rs) = All IsClean rs × (map trim_space rs ≡ rs) × ((length rs == 0) ≡ false)
RegionsOf flag (err e) = (e ≡ required (codes "--regions")) × AllBlank (split_commas flag)

-- The flag fails only if every item of the list is blank. Otherwise there is a region, none is
-- empty, and none has space around it: the trimming that `Deploy` does in one of its loops and
-- leaves out in the other changes nothing.
pub parse_region_list_lem : (flag : Bytes) → RegionsOf flag (parse_region_list flag)
unfolding parse_region_list
parse_region_list_lem flag =
    let rs = clean_regions (split_commas flag) in
    let clean = clean_regions-IsClean (split_commas flag) in
    elim (Bool-cases (length rs == 0)) [
      | inl e ↦
          rw (e, parse_region_list) (refl, clean_regions-none (split_commas flag) (no_length rs e))
      | inr e ↦ rw (e, parse_region_list) (clean, trimmed_again rs clean, e)
    ]
  where
    no_length : (rs : List Bytes) → (length rs == 0) ≡ true → rs ≡ []
    no_length [] h = refl
    no_length (r ∷ rs) h = absurd (ground (arith, h))
