-- ===== src/Auth/Tests.antt =====
-- Credentials under a concrete digest.
use turnfly.Prelude.{◌≡◌, refl, ◌↔◌, none, some, ◌++◌, ◌*◌, if◌then◌else◌, arith}
use turnfly.Int.{ℤ, pos, ◌+ℤ◌, ltb_ℤ, IsInt64}
use turnfly.Text.{Bytes, codes}
use turnfly.Text.Decimal
use turnfly.Clock.{second}
use turnfly.Auth.{unix, compute_password, generate_credentials, validate_credentials}
use turnfly.Auth.Base64.{encode_base64}
use turnfly.Auth.Validity.{Accepts, validate_credentials_iff, generated_credentials}

base64_example : encode_base64 (codes "light w") ≡ codes "bGlnaHQgdw=="
unfolding encode_base64
base64_example = refl

-- A stand-in for the digest.
abbrev toy_mac : Bytes → Bytes → Bytes
toy_mac secret message = secret ++ message

abbrev start : ℤ
start = pos (1_700_000_000 * second)

generated_name :
    (generate_credentials toy_mac (codes "s") (codes "a:b") (pos (60 * second)) start).0
    ≡ codes "1700000060:a:b"
unfolding generate_credentials unix Decimal.format_int Decimal.digits ◌+ℤ◌
generated_name = refl

validate_credentials_iff_example :
    (validate_credentials toy_mac (codes "1700000060:a:b") (codes "pw") (codes "s") start
      ≡ some (codes "a:b"))
    ↔ ((codes "pw" ≡ compute_password toy_mac (codes "s") (codes "1700000060:a:b"))
        × Accepts start (codes "1700000060:a:b") (codes "a:b"))
validate_credentials_iff_example =
    validate_credentials_iff toy_mac (codes "1700000060:a:b") (codes "pw") (codes "s") (codes "a:b")
      start

in_range : IsInt64 (unix (start +ℤ pos (60 * second)))
unfolding unix ◌+ℤ◌
in_range = omega arith

generated_credentials_example :
    let (username, password) =
      generate_credentials toy_mac (codes "s") (codes "a:b") (pos (60 * second)) start in
    validate_credentials toy_mac username password (codes "s") start
    ≡ (if ltb_ℤ (unix (start +ℤ pos (60 * second))) (unix start) then none else some (codes "a:b"))
generated_credentials_example =
    generated_credentials toy_mac (codes "s") (codes "a:b") (pos (60 * second)) start start refl
      in_range
