-- ===== src/Text.antt =====
-- Go strings and byte slices: lists of bytes, their comparison, slicing, and big-endian integers
-- as `encoding/binary` writes them.
pub mod BigEndian
pub mod Decimal
pub mod Slices
pub mod Strings
pub mod Trimming
pub mod Splitting
use Prim.Native.Char.{code}
use Prim.Native.String
use turnfly.Prelude.{
  ℕ, ◌<◌, ◌-◌, ◌≡◌, refl, ◌↔◌, Bool, true, false, ◌&&◌, List, [], ◌∷◌, String, arith, ◌==◌, ==_iff,
  take, drop,
}

abbrev pub Bytes : Type 0
Bytes = List ℕ

abbrev pub IsByte : ℕ → Type 0
IsByte b = b < 256

-- The code points of a literal: its bytes, since every literal of the source used here is ASCII.
abbrev pub codes : String → Bytes
codes String.[] = []
codes (String.◌∷◌ c s) = code c ∷ codes s

-- `==` on strings; `subtle.ConstantTimeCompare` and `hmac.Equal` have the same result.
unfoldable pub beq : Bytes → Bytes → Bool
beq [] [] = true
beq [] (y ∷ ys) = false
beq (x ∷ xs) [] = false
beq (x ∷ xs) (y ∷ ys) = x == y && beq xs ys

pub beq_iff : (s t : Bytes) → (beq s t ≡ true) ↔ (s ≡ t)
unfolding beq
beq_iff [] [] = ground arith
beq_iff [] (y ∷ ys) = ground arith
beq_iff (x ∷ xs) [] = ground arith
beq_iff (x ∷ xs) (y ∷ ys) = ground (arith, ==_iff x y, beq_iff xs ys)

pub beq_refl : (s : Bytes) → beq s s ≡ true
beq_refl s = (beq_iff s s).1 refl

-- `s == ""`
abbrev pub is_empty : Bytes → Bool
is_empty [] = true
is_empty (c ∷ s) = false

-- `s[lo:hi]` within bounds.
abbrev pub slice : ℕ → ℕ → Bytes → Bytes
slice lo hi s = take (hi - lo) (drop lo s)
