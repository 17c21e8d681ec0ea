-- ===== src/Text/Trimming.antt =====
-- `strings.TrimSpace` again changes nothing.
use turnfly.Prelude.{
  ℕ, ◌≡◌, refl, arith, ap, sym, ◌∙◌, Bool, false, [], ◌∷◌, inl, inr, Bool-cases, if◌then◌else◌,
}
use turnfly.Text.{Bytes}
use turnfly.Text.Strings.{is_space, trim_left, trim_right, trim_space}

module _ (p : ℕ → Bool) where
  -- The first character, if there is one, is kept.
  abbrev Starts : Bytes → Type 0
  Starts [] = Unit
  Starts (c ∷ s) = p c ≡ false

  trim_left-Starts : (s : Bytes) → Starts (trim_left p s)
  unfolding trim_left
  trim_left-Starts [] = tt
  trim_left-Starts (c ∷ s) = elim (Bool-cases (p c)) [
    | inl e ↦ rw (e, trim_left) (trim_left-Starts s)
    | inr e ↦ rw (e, trim_left) e
  ]

  trim_left_kept : (s : Bytes) → Starts s → trim_left p s ≡ s
  unfolding trim_left
  trim_left_kept [] h = refl
  trim_left_kept (c ∷ s) h = rw (h, trim_left)

  -- What `trim_right` puts before the trimmed rest.
  add_before : ℕ → Bytes → Bytes
  add_before c [] = if p c then [] else c ∷ []
  add_before c (d ∷ t) = c ∷ d ∷ t

  trim_right-cons : (c : ℕ) (s : Bytes) → trim_right p (c ∷ s) ≡ add_before c (trim_right p s)
  unfolding trim_right add_before
  trim_right-cons c s = ground arith

  add_before-Starts : (c : ℕ) (t : Bytes) → p c ≡ false → Starts (add_before c t)
  unfolding add_before
  add_before-Starts c [] h = rw h h
  add_before-Starts c (d ∷ t) h = h

  trim_right-Starts : (s : Bytes) → Starts s → Starts (trim_right p s)
  unfolding trim_right
  trim_right-Starts [] h = tt
  trim_right-Starts (c ∷ s) h = rw (trim_right-cons c s) (add_before-Starts c (trim_right p s) h)

  trim_right-add_before :
      (c : ℕ) (t : Bytes) → trim_right p t ≡ t → trim_right p (add_before c t) ≡ add_before c t
  unfolding add_before trim_right
  trim_right-add_before c [] h = elim (Bool-cases (p c)) [
    | inl e ↦ rw e refl
    | inr e ↦ rw e (rw e refl)
  ]
  trim_right-add_before c (d ∷ t) h = trim_right-cons c (d ∷ t) ∙ ap (add_before c) h

  trim_right_again : (s : Bytes) → trim_right p (trim_right p s) ≡ trim_right p s
  unfolding trim_right
  trim_right_again [] = refl
  trim_right_again (c ∷ s) =
      ap (trim_right p) (trim_right-cons c s)
      ∙ trim_right-add_before c (trim_right p s) (trim_right_again s)
      ∙ sym (trim_right-cons c s)

pub trim_space_again : (s : Bytes) → trim_space (trim_space s) ≡ trim_space s
unfolding trim_space
trim_space_again s =
    let t = trim_left is_space s in
    ap (trim_right is_space) (
      trim_left_kept is_space (trim_right is_space t)
        (trim_right-Starts is_space t (trim_left-Starts is_space s)))
    ∙ trim_right_again is_space t
