-- ===== src/Text/BigEndian.antt =====
-- `binary.BigEndian`: `PutUint16`, `PutUint32`, `PutUint64` and their readers, for every width.
use Prim.Native.Nat.add
use turnfly.Prelude.{
  ℕ, zero, suc, ◌+◌, ◌*◌, ◌/◌, ◌%◌, ◌<◌, ◌≡◌, ◌∙◌, ap, ap₂, [], ◌∷◌, ◌++◌, arith, length, All,
  append-nil,
}
use turnfly.Text.{Bytes, IsByte}

-- The low byte goes last.
put_loop : ℕ → ℕ → Bytes → Bytes
put_loop zero n out = out
put_loop (suc k) n out = put_loop k (n / 256) ((n % 256) ∷ out)

unfoldable pub put_be : ℕ → ℕ → Bytes
unfolding put_loop
put_be k n = put_loop k n []

unfoldable pub get_from : ℕ → Bytes → ℕ
get_from acc [] = acc
get_from acc (b ∷ s) = get_from (acc * 256 + b) s

unfoldable pub get_be : Bytes → ℕ
unfolding get_from
get_be s = get_from 0 s

-- The number of values of `k` bytes.
abbrev pub capacity : ℕ → ℕ
capacity zero = 1
capacity (suc k) = 256 * capacity k

length-put_loop : (k n : ℕ) (out : Bytes) → length (put_loop k n out) ≡ k + length out
unfolding put_loop
length-put_loop zero n out = omega arith
length-put_loop (suc k) n out = omega (arith, length-put_loop k (n / 256) ((n % 256) ∷ out))

pub length-put_be : (k n : ℕ) → length (put_be k n) ≡ k
unfolding put_be
length-put_be k n = omega (arith, length-put_loop k n [])

put_loop-IsByte : (k n : ℕ) (out : Bytes) → All IsByte out → All IsByte (put_loop k n out)
unfolding put_loop
put_loop-IsByte zero n out h = h
put_loop-IsByte (suc k) n out h = put_loop-IsByte k (n / 256) ((n % 256) ∷ out) (omega arith, h)

pub put_be-IsByte : (k n : ℕ) → All IsByte (put_be k n)
unfolding put_be
put_be-IsByte k n = put_loop-IsByte k n [] tt

get_from-put_loop :
    (k n : ℕ) (out : Bytes) → n < capacity k → get_from 0 (put_loop k n out) ≡ get_from n out
unfolding put_loop get_from
get_from-put_loop zero n out h = ap (λ m. get_from m out) (omega arith)
get_from-put_loop (suc k) n out h =
    get_from-put_loop k (n / 256) ((n % 256) ∷ out) (omega arith)
    ∙ ap (λ m. get_from m out) (omega arith)

pub get_be-put_be : (k n : ℕ) → n < capacity k → get_be (put_be k n) ≡ n
unfolding get_be put_be
get_be-put_be k n h = get_from-put_loop k n [] h

put_loop-get_from :
    (s : Bytes) (k acc : ℕ) (out : Bytes)
    → All IsByte s
    → put_loop (length s + k) (get_from acc s) out ≡ put_loop k acc (s ++ out)
unfolding put_loop get_from
put_loop-get_from [] k acc out h = rw add.zero
put_loop-get_from (b ∷ s) k acc out h =
    ap (λ j. put_loop j (get_from (acc * 256 + b) s) out) regroup
    ∙ put_loop-get_from s (suc k) (acc * 256 + b) out h.1
    ∙ ap₂ (λ m c. put_loop k m (c ∷ s ++ out)) high low
  where
    regroup : suc (length s) + k ≡ length s + suc k
    regroup = omega arith

    high : (acc * 256 + b) / 256 ≡ acc
    high = omega arith

    low : (acc * 256 + b) % 256 ≡ b
    low = omega arith

pub put_be-get_be : (s : Bytes) → All IsByte s → put_be (length s) (get_be s) ≡ s
unfolding put_be get_be
put_be-get_be s h =
    let e : length s ≡ length s + 0 = omega arith in
    ap (λ j. put_loop j (get_from 0 s) []) e ∙ put_loop-get_from s zero 0 [] h ∙ append-nil s

get_from-lt :
    (s : Bytes) (k acc : ℕ)
    → All IsByte s
    → acc < capacity k
    → get_from acc s < capacity (length s + k)
unfolding get_from
get_from-lt [] k acc h lt = let e : 0 + k ≡ k = omega arith in rw e lt
get_from-lt (b ∷ s) k acc h lt =
    let e : suc (length s) + k ≡ length s + suc k = omega arith in
    rw e (get_from-lt s (suc k) (acc * 256 + b) h.1 (omega arith))

pub get_be-lt : (s : Bytes) → All IsByte s → get_be s < capacity (length s)
unfolding get_be
get_be-lt s h =
    let e : length s ≡ length s + 0 = omega arith in rw e (get_from-lt s 0 0 h (omega arith))
