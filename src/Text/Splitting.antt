-- ===== src/Text/Splitting.antt =====
-- `split_first` against the text that its two parts make.
use turnfly.Prelude.{
  ℕ, ◌≡◌, ap, ap₂, subst, ◌∙◌, false, some, [], ◌∷◌, ◌++◌, ◌==◌, All, arith, inl, inr, Bool-cases,
  Option-cases,
}
use turnfly.Text.{Bytes}
use turnfly.Text.Strings.{split_first}

module _ (sep : ℕ) where
  -- Without the separator.
  abbrev pub Lacks : Bytes → Type 0
  Lacks = All (λ c. (c == sep) ≡ false)

  pub split_first_complete :
      (a b : Bytes) → Lacks a → split_first sep (a ++ (sep ∷ b)) ≡ some (a, b)
  unfolding split_first
  split_first_complete [] b h = refl_split b
    where
      refl_split : (b : Bytes) → split_first sep (sep ∷ b) ≡ some ([], b)
      refl_split b = ground arith
  split_first_complete (c ∷ a) b h = ground (arith, h.0, split_first_complete a b h.1)

  at_first : (c : ℕ) (s a b : Bytes) → c ≡ sep → [] ≡ a → s ≡ b → (c ∷ s ≡ a ++ (sep ∷ b)) × Lacks a
  at_first c s a b e f g =
      subst (λ x. (c ∷ s ≡ x ++ (sep ∷ b)) × Lacks x) f (ap₂ (λ x y. x ∷ y) e g, tt)

  behind_first :
      (c : ℕ) (s a b a' b' : Bytes)
      → (c == sep) ≡ false
      → (c ∷ a') ≡ a
      → b' ≡ b
      → (s ≡ a' ++ (sep ∷ b')) × Lacks a'
      → (c ∷ s ≡ a ++ (sep ∷ b)) × Lacks a
  behind_first c s a b a' b' e f g r =
      subst (λ x. (c ∷ s ≡ x ++ (sep ∷ b)) × Lacks x) f
        (ap (◌∷◌ c) (r.0 ∙ ap (λ y. a' ++ (sep ∷ y)) g), (e, r.1))

  pub split_first_sound :
      (s a b : Bytes) → split_first sep s ≡ some (a, b) → (s ≡ a ++ (sep ∷ b)) × Lacks a
  unfolding split_first
  split_first_sound [] a b h = absurd (ground (arith, h))
  split_first_sound (c ∷ s) a b h = elim (Bool-cases (c == sep)) [
    | inl e ↦ at_first c s a b (ground (arith, e)) (ground (arith, e, h)) (ground (arith, e, h))
    | inr e ↦ elim (Option-cases (split_first sep s)) [
      | inl f ↦ absurd (ground (arith, e, f, h))
      | inr ((a', b'), f) ↦
          behind_first c s a b a' b' e (ground (arith, e, f, h)) (ground (arith, e, f, h))
            (split_first_sound s a' b' f)
    ]
  ]
