-- ===== src/Text/Decimal.antt =====
-- Package strconv in base 10: `FormatInt` (also `%d` of package fmt) and `ParseInt` with 64 bits
-- (also `Atoi`).
use turnfly.Prelude.{
  ℕ, zero, suc, ◌+◌, ◌-◌, ◌*◌, ◌/◌, ◌%◌, ◌^◌, ◌<◌, ◌≡◌, refl, Option, none, some, [], ◌∷◌, ◌++◌,
  arith, ltb, leb, ◌==◌, ◌&&◌, ◌||◌, Bool, true, false, if◌then◌else◌, ap, ◌∙◌, Bool-cases, inl,
  inr, ltb→lt, All, All-append, All-imp, length, length-append,
}
use turnfly.Int.{ℤ, pos, negsuc, sub_ℕ, IsInt64}
use turnfly.Text.{Bytes}

-- The digits of a number; `fuel` bounds how many there are.
unfoldable pub digits : ℕ → ℕ → Bytes
digits zero n = []
digits (suc fuel) n = elim (ltb n 10) [
  | true ↦ (48 + n) ∷ []
  | false ↦ digits fuel (n / 10) ++ ((48 + n % 10) ∷ [])
]

-- Enough for any 64-bit number.
abbrev pub max_digits : ℕ
max_digits = 20

-- `strconv.FormatInt(z, 10)`
unfoldable pub format_int : ℤ → Bytes
format_int (pos n) = digits max_digits n
format_int (negsuc n) = 45 ∷ digits max_digits (suc n)

abbrev pub is_digit : ℕ → Bool
is_digit c = leb 48 c && leb c 57

-- The value of a string of digits behind those with the value `acc`.
unfoldable pub read_digits : ℕ → Bytes → Option ℕ
read_digits acc [] = some acc
read_digits acc (c ∷ s) = elim (is_digit c) [
  | false ↦ none
  | true ↦ read_digits (acc * 10 + (c - 48)) s
]

abbrev positive : Option ℕ → Option ℤ
positive none = none
positive (some n) = if ltb n (2 ^ 63) then some (pos n) else none

abbrev negative : Option ℕ → Option ℤ
negative none = none
negative (some n) = if leb n (2 ^ 63) then some (sub_ℕ 0 n) else none

abbrev unsigned : Bytes → Option ℕ
unsigned [] = none
unsigned (c ∷ s) = read_digits 0 (c ∷ s)

-- `strconv.ParseInt(s, 10, 64)`
unfoldable pub parse_int : Bytes → Option ℤ
parse_int [] = none
parse_int (c ∷ s) =
    if c == 45
    then negative (unsigned s)
    else if c == 43
    then positive (unsigned s)
    else positive (unsigned (c ∷ s))

abbrev pub Digit : ℕ → Type 0
Digit c = is_digit c ≡ true

abbrev pow10 : ℕ → ℕ
pow10 zero = 1
pow10 (suc k) = 10 * pow10 k

read_digits-append :
    (acc v d : ℕ) (s : Bytes)
    → d < 10
    → read_digits acc s ≡ some v
    → read_digits acc (s ++ ((48 + d) ∷ [])) ≡ some (v * 10 + d)
unfolding read_digits
read_digits-append acc v d [] hd h = ground arith
read_digits-append acc v d (c ∷ s) hd h = elim (Bool-cases (is_digit c)) [
  | inl e ↦ ground (arith, e, read_digits-append (acc * 10 + (c - 48)) v d s hd)
  | inr e ↦ absurd (ground (arith, e))
]

digits_small : (fuel n : ℕ) → n < 10 → digits (suc fuel) n ≡ (48 + n) ∷ []
unfolding digits
digits_small fuel n h = ground arith

digits_large :
    (fuel n : ℕ)
    → ltb n 10 ≡ false
    → digits (suc fuel) n ≡ digits fuel (n / 10) ++ ((48 + n % 10) ∷ [])
unfolding digits
digits_large fuel n h = ground (arith, h)

-- The digits that are written are digits, and are read as the number.
pub digits_lem :
    (fuel n : ℕ)
    → n < pow10 (suc fuel)
    → All Digit (digits (suc fuel) n) × (read_digits 0 (digits (suc fuel) n) ≡ some n)
unfolding read_digits
digits_lem zero n h = rw (digits_small 0 n h) ((ground arith, tt), ground arith)
digits_lem (suc fuel) n h = elim (Bool-cases (ltb n 10)) [
  | inl e ↦ rw (digits_small (suc fuel) n (ltb→lt n 10 e)) ((ground arith, tt), ground arith)
  | inr e ↦
      let (ds, r) = digits_lem fuel (n / 10) (omega arith) in
      rw (digits_large (suc fuel) n e) (
        All-append Digit (digits (suc fuel) (n / 10)) ((48 + n % 10) ∷ []) ds (ground arith, tt),
        read_digits-append 0 (n / 10) (n % 10) (digits (suc fuel) (n / 10)) (omega arith) r
            ∙ ap some (omega arith),
      )
]

digits_nonempty : (fuel n : ℕ) → 0 < length (digits (suc fuel) n)
digits_nonempty fuel n = elim (Bool-cases (ltb n 10)) [
  | inl e ↦ rw (digits_small fuel n (ltb→lt n 10 e)) (omega arith)
  | inr e ↦
      rw (digits_large fuel n e)
        (omega (arith, length-append (digits fuel (n / 10)) ((48 + n % 10) ∷ [])))
]

parse_unsigned :
    (s : Bytes) (n : ℕ)
    → All Digit s
    → 0 < length s
    → read_digits 0 s ≡ some n
    → (parse_int s ≡ positive (some n)) × (parse_int (45 ∷ s) ≡ negative (some n))
unfolding parse_int
parse_unsigned [] n d l r = absurd (omega arith)
parse_unsigned (c ∷ s) n d l r = (ground (arith, d.0, r), ground (arith, r))

-- `ParseInt` reads what `FormatInt` writes.
pub parse_int-format_int : (z : ℤ) → IsInt64 z → parse_int (format_int z) ≡ some z
unfolding format_int
parse_int-format_int (pos n) h =
    let (ds, r) = digits_lem 19 n (omega arith) in
    (parse_unsigned (digits 20 n) n ds (digits_nonempty 19 n) r).0 ∙ ground arith
parse_int-format_int (negsuc n) h =
    let (ds, r) = digits_lem 19 (suc n) (omega arith) in
    (parse_unsigned (digits 20 (suc n)) (suc n) ds (digits_nonempty 19 (suc n)) r).1 ∙ ground arith

-- What `FormatInt` writes is a sign, where the number is negative, and digits.
abbrev pub SignOrDigit : ℕ → Type 0
SignOrDigit c = (is_digit c || c == 45) ≡ true

pub format_int-SignOrDigit : (z : ℤ) → IsInt64 z → All SignOrDigit (format_int z)
unfolding format_int
format_int-SignOrDigit (pos n) h =
    All-imp Digit SignOrDigit (digits max_digits n) (λ c d. ground (arith, d))
      (digits_lem 19 n (omega arith)).0
format_int-SignOrDigit (negsuc n) h = (
  refl,
  All-imp Digit SignOrDigit (digits max_digits (suc n)) (λ c d. ground (arith, d))
      (digits_lem 19 (suc n) (omega arith)).0,
)
