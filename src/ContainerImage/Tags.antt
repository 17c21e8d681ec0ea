-- ===== src/ContainerImage/Tags.antt =====
-- `splitImageTag` on images with a tag and without one.
use turnfly.Prelude.{
  ℕ, suc, ◌-◌, ◌≤◌, ◌≡◌, refl, ap₂, true, false, [], ◌∷◌, ◌++◌, length, drop, ltb, ◌==◌, arith, All,
  take-append,
}
use turnfly.Text.{Bytes, codes}
use turnfly.ContainerImage.{last_position, split_image_tag}

-- A text without a character.
abbrev pub Without : ℕ → Bytes → Type 0
Without c = All (λ d. (d == c) ≡ false)

last_position-le-length : (c : ℕ) (s : Bytes) → last_position c s ≤ length s
unfolding last_position
last_position-le-length c [] = omega arith
last_position-le-length c (d ∷ s) = ground (arith, last_position-le-length c s)

last_position-Without : (c : ℕ) (s : Bytes) → Without c s → last_position c s ≡ 0
unfolding last_position
last_position-Without c [] h = refl
last_position-Without c (d ∷ s) h = ground (arith, h.0, last_position-Without c s h.1)

last_position-append :
    (c : ℕ) (a b : Bytes) → Without c b → last_position c (a ++ b) ≡ last_position c a
unfolding last_position
last_position-append c [] b h = last_position-Without c b h
last_position-append c (d ∷ a) b h = ground (arith, last_position-append c a b h)

last_position_found :
    (c : ℕ) (a b : Bytes) → Without c b → last_position c (a ++ (c ∷ b)) ≡ suc (length a)
unfolding last_position
last_position_found c [] b h = ground (arith, last_position-Without c b h)
last_position_found c (d ∷ a) b h = ground (arith, last_position_found c a b h)

drop_past : (a b : Bytes) (c : ℕ) → drop (suc (length a)) (a ++ (c ∷ b)) ≡ b
drop_past [] b c = refl
drop_past (d ∷ a) b c = drop_past a b c

-- A tag behind the last colon is split off, also where the name has a colon for a port; an image
-- without a colon behind its last slash has the tag `latest`.
pub split_image_tag_lem :
    (name tag : Bytes)
    → Without 58 tag
    → Without 47 tag
    → (split_image_tag (name ++ (58 ∷ tag)) ≡ (name, tag))
      × (split_image_tag (name ++ (47 ∷ tag)) ≡ (name ++ (47 ∷ tag), codes "latest"))
unfolding split_image_tag
split_image_tag_lem name tag no_colon no_slash = (
  rw
      (
        last_position_found 58 name tag no_colon,
        last_position-append 47 name (58 ∷ tag) (refl, no_slash),
        below (last_position 47 name) (length name) (last_position-le-length 47 name),
        one_less (length name),
      )
      (ap₂ (λ x y. (x, y)) (take-append name (58 ∷ tag)) (drop_past name tag 58)),
  rw
      (
        last_position_found 47 name tag no_slash,
        last_position-append 58 name (47 ∷ tag) (refl, no_colon),
        not_below (last_position 58 name) (length name) (last_position-le-length 58 name),
      )
      refl,
)
  where
    one_less : (n : ℕ) → suc n - 1 ≡ n
    one_less n = omega arith

    below : (p n : ℕ) → p ≤ n → ltb p (suc n) ≡ true
    below p n h = ground arith

    not_below : (p n : ℕ) → p ≤ n → ltb (suc n) p ≡ false
    not_below p n h = ground arith
