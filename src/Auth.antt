-- ===== src/Auth.antt =====
-- internal/auth: the ephemeral TURN credentials. The user name is the Unix time of expiry and the
-- user's ID with a colon between, and the password is the base64 text of an HMAC-SHA1 of it.
pub mod Base64
pub mod Validity
mod Tests
use turnfly.Prelude.{
  ℕ, ◌+◌, ◌-◌, ◌/◌, ◌≤◌, ◌<◌, ◌≡◌, Bool, true, false, not, Option, none, some, List, [], ◌∷◌, ◌++◌,
  ◌==◌, if◌then◌else◌,
}
use turnfly.Int.{ℤ, pos, negsuc, ◌+ℤ◌, ltb_ℤ}
use turnfly.Text.{Bytes, beq, codes, is_empty}
use turnfly.Text.Strings.{split_first}
use turnfly.Text.Decimal.{format_int, parse_int}
use turnfly.Clock.{second}
use turnfly.Auth.Base64.{encode_base64}

-- `Time.Unix`: whole seconds, rounded down.
unfoldable pub unix : ℤ → ℤ
unix (pos n) = pos (n / second)
unix (negsuc n) = negsuc (n / second)

abbrev pub colon : ℕ
colon = 58

-- `ValidateUsername` at the wall time `now`: the user's ID.
unfoldable pub validate_username : ℤ → Bytes → Option Bytes
unfolding split_first
validate_username now username = elim (split_first colon username) [
  | none ↦ none
  | some (expiry, user_id) ↦ if is_empty user_id then none else elim (parse_int expiry) [
    | none ↦ none
    | some expiry_unix ↦ if ltb_ℤ expiry_unix (unix now) then none else some user_id
  ]
]

-- `FormatTURNServerURL`
unfoldable pub format_turn_server_url : Bytes → ℤ → Bytes → Bytes → Bool → Bytes
format_turn_server_url host port username password use_tls =
    (if use_tls then codes "turns" else codes "turn")
    ++ ((colon ∷ username) ++ ((colon ∷ password) ++ ((64 ∷ host) ++ (colon ∷ format_int port))))

-- `hmac_sha1 secret message` is the digest that crypto/hmac computes with crypto/sha1.
module _ (hmac_sha1 : Bytes → Bytes → Bytes) where
  -- `computePassword`
  unfoldable pub compute_password : Bytes → Bytes → Bytes
  compute_password secret username = encode_base64 (hmac_sha1 secret username)

  -- `GenerateCredentials` at the wall time `now`, for a validity in nanoseconds.
  unfoldable pub generate_credentials : Bytes → Bytes → ℤ → ℤ → Bytes × Bytes
  unfolding compute_password
  generate_credentials secret user_id validity now =
      let username = format_int (unix (now +ℤ validity)) ++ (colon ∷ user_id) in
      (username, compute_password secret username)

  -- `ValidateCredentials` at the wall time `now`.
  unfoldable pub validate_credentials : Bytes → Bytes → Bytes → ℤ → Option Bytes
  unfolding compute_password
  validate_credentials username password secret now = elim (validate_username now username) [
    | none ↦ none
    | some user_id ↦
        if not (beq password (compute_password secret username)) then none else some user_id
  ]
