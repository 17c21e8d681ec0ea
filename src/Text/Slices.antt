-- ===== src/Text/Slices.antt =====
-- Slices of a concatenation, and the concatenation of adjacent slices.
use Prim.Native.Nat.add
use turnfly.Prelude.{
  ℕ, zero, suc, ◌+◌, ◌-◌, ◌≤◌, ◌≡◌, refl, ◌∙◌, sym, ap, [], ◌∷◌, ◌++◌, arith, length, take, drop,
  length-drop, length-take,
}
use turnfly.Text.{Bytes, slice}

drop-append_eq : (xs ys : Bytes) (n : ℕ) → length xs ≡ n → drop n (xs ++ ys) ≡ ys
drop-append_eq [] ys zero h = refl
drop-append_eq [] ys (suc n) h = absurd (omega arith)
drop-append_eq (x ∷ xs) ys zero h = absurd (omega arith)
drop-append_eq (x ∷ xs) ys (suc n) h = drop-append_eq xs ys n (omega arith)

take-append_eq : (xs ys : Bytes) (n : ℕ) → length xs ≡ n → take n (xs ++ ys) ≡ xs
take-append_eq [] ys zero h = refl
take-append_eq [] ys (suc n) h = absurd (omega arith)
take-append_eq (x ∷ xs) ys zero h = absurd (omega arith)
take-append_eq (x ∷ xs) ys (suc n) h = ap (◌∷◌ x) (take-append_eq xs ys n (omega arith))

-- The field `mid` of a buffer, at its offsets.
pub slice_field :
    (before mid after : Bytes) (lo hi : ℕ)
    → length before ≡ lo
    → lo + length mid ≡ hi
    → slice lo hi (before ++ (mid ++ after)) ≡ mid
slice_field before mid after lo hi h k =
    rw (drop-append_eq before (mid ++ after) lo h)
      (take-append_eq mid after (hi - lo) (omega arith))

take_front : (n : ℕ) (xs ys : Bytes) → n ≤ length xs → take n (xs ++ ys) ≡ take n xs
take_front zero xs ys h = refl
take_front (suc n) [] ys h = absurd (omega arith)
take_front (suc n) (x ∷ xs) ys h = ap (◌∷◌ x) (take_front n xs ys (omega arith))

drop_front : (n : ℕ) (xs ys : Bytes) → n ≤ length xs → drop n (xs ++ ys) ≡ drop n xs ++ ys
drop_front zero xs ys h = refl
drop_front (suc n) [] ys h = absurd (omega arith)
drop_front (suc n) (x ∷ xs) ys h = drop_front n xs ys (omega arith)

-- A slice that lies in the front of a buffer.
pub slice_front :
    (lo hi : ℕ) (front back : Bytes)
    → lo ≤ hi
    → hi ≤ length front
    → slice lo hi (front ++ back) ≡ slice lo hi front
slice_front lo hi front back h k =
    ap (take (hi - lo)) (drop_front lo front back (omega arith))
    ∙ take_front (hi - lo) (drop lo front) back (omega (arith, length-drop lo front))

take_nil : (n : ℕ) → take {A = ℕ} n [] ≡ []
take_nil zero = refl
take_nil (suc n) = refl

drop_nil : (n : ℕ) → drop {A = ℕ} n [] ≡ []
drop_nil zero = refl
drop_nil (suc n) = refl

take_split : (n m : ℕ) (s : Bytes) → take n s ++ take m (drop n s) ≡ take (n + m) s
take_split zero m s = rw add.zero
take_split (suc n) m [] = rw add.suc (take_nil m)
take_split (suc n) m (x ∷ s) = rw add.suc (ap (◌∷◌ x) (take_split n m s))

drop-drop : (n m : ℕ) (s : Bytes) → drop n (drop m s) ≡ drop (m + n) s
drop-drop n zero s = rw add.zero
drop-drop n (suc m) [] = rw add.suc (drop_nil n)
drop-drop n (suc m) (x ∷ s) = rw add.suc (drop-drop n m s)

pub slice-append_slice :
    (lo mid hi : ℕ) (s : Bytes)
    → lo ≤ mid
    → mid ≤ hi
    → slice lo mid s ++ slice mid hi s ≡ slice lo hi s
slice-append_slice lo mid hi s h k =
    let e : lo + (mid - lo) ≡ mid = omega arith in
    let e' : (mid - lo) + (hi - mid) ≡ hi - lo = omega arith in
    rw (← e') (
      rw (← take_split) (
        ap (λ d. take (mid - lo) (drop lo s) ++ take (hi - mid) d)
          (ap (λ n. drop n s) (sym e) ∙ sym (drop-drop (mid - lo) lo s))))

pub length-slice : (lo hi : ℕ) (s : Bytes) → hi ≤ length s → length (slice lo hi s) ≡ hi - lo
length-slice lo hi s h = omega (arith, length-take (hi - lo) (drop lo s), length-drop lo s)
