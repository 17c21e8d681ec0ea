-- ===== src/Auth/Base64.antt =====
-- Package encoding/base64: the standard and the URL encoding, with and without padding.
use turnfly.Prelude.{ℕ, ◌+◌, ◌-◌, ◌*◌, ◌/◌, ◌%◌, [], ◌∷◌, ◌++◌, ltb, ◌==◌, if◌then◌else◌}
use turnfly.Text.{Bytes}

-- The character of a number below 64: `A-Z`, `a-z`, `0-9`, `+` and `/`.
abbrev pub base64_char : ℕ → ℕ
base64_char n =
    if ltb n 26
    then 65 + n
    else if ltb n 52
    then 71 + n
    else if ltb n 62
    then n - 4
    else if n == 62
    then 43
    else 47

-- The last two characters of the URL encoding are `-` and `_`.
abbrev pub base64_url_char : ℕ → ℕ
base64_url_char n = if n == 62 then 45 else if n == 63 then 95 else base64_char n

-- The encoding with an alphabet and a padding, which is a text of one character or none.
unfoldable pub encode_with : (ℕ → ℕ) → Bytes → Bytes → Bytes
encode_with char pad [] = []
encode_with char pad (a ∷ []) = char (a / 4) ∷ char (a % 4 * 16) ∷ pad ++ pad
encode_with char pad (a ∷ b ∷ []) =
    char (a / 4) ∷ char (a % 4 * 16 + b / 16) ∷ char (b % 16 * 4) ∷ pad
encode_with char pad (a ∷ b ∷ c ∷ s) =
    char (a / 4)
    ∷ char (a % 4 * 16 + b / 16)
    ∷ char (b % 16 * 4 + c / 64)
    ∷ char (c % 64)
    ∷ encode_with char pad s

-- `base64.StdEncoding.EncodeToString`
unfoldable pub encode_base64 : Bytes → Bytes
unfolding encode_with
encode_base64 s = encode_with base64_char (61 ∷ []) s

-- `base64.URLEncoding.EncodeToString`
unfoldable pub encode_base64_url : Bytes → Bytes
unfolding encode_with
encode_base64_url s = encode_with base64_url_char (61 ∷ []) s

-- `base64.RawURLEncoding.EncodeToString`
unfoldable pub encode_raw_url : Bytes → Bytes
unfolding encode_with
encode_raw_url s = encode_with base64_url_char [] s
