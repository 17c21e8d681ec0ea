-- ===== src/Auth/Validity.antt =====
-- Which credentials `ValidateCredentials` accepts, and that it accepts what `GenerateCredentials`
-- makes until it expires.
use turnfly.Prelude.{
  ◌≡◌, ap, ◌∙◌, ◌↔◌, false, none, some, ◌∷◌, ◌++◌, ◌==◌, if◌then◌else◌, All-imp, arith, inl, inr,
  Option-cases,
}
use turnfly.Int.{ℤ, ◌+ℤ◌, ◌≤ℤ◌, ltb_ℤ, IsInt64}
use turnfly.Text.{Bytes, beq_iff, beq_refl, is_empty}
use turnfly.Text.Decimal.{
  format_int, parse_int, parse_int-format_int, format_int-SignOrDigit, SignOrDigit,
}
use turnfly.Text.Strings.{split_first}
use turnfly.Text.Splitting.{Lacks, split_first_complete, split_first_sound}
use turnfly.Auth.{
  unix, colon, validate_username, compute_password, generate_credentials, validate_credentials,
}

abbrev pub NoColon : Bytes → Type 0
NoColon = Lacks colon

-- A user name that `ValidateUsername` accepts at a time, for a user.
pub record Accepts (now : ℤ) (username user_id : Bytes) : Type 0 where
  pub expiry : Bytes
  pub expires : ℤ
  pub spelling : username ≡ expiry ++ (colon ∷ user_id)
  pub no_colon : NoColon expiry
  pub numeral : parse_int expiry ≡ some expires
  pub user : is_empty user_id ≡ false
  pub in_time : unix now ≤ℤ expires

validate_username_complete :
    (now : ℤ) (username user_id : Bytes)
    → Accepts now username user_id
    → validate_username now username ≡ some user_id
unfolding validate_username
validate_username_complete now username user_id h = ground (
  arith,
  h.spelling,
  split_first_complete colon h.expiry user_id h.no_colon,
  h.numeral,
  h.user,
  h.in_time,
)

validate_username_sound :
    (now : ℤ) (username user_id : Bytes)
    → validate_username now username ≡ some user_id
    → Accepts now username user_id
unfolding validate_username
validate_username_sound now username user_id h = elim (Option-cases (split_first colon username)) [
  | inl e ↦ absurd (ground (arith, e, h))
  | inr ((expiry, user), e) ↦ elim (Option-cases (parse_int expiry)) [
    | inl f ↦ absurd (ground (arith, e, f, h))
    | inr (z, f) ↦
        let (sp, nc) = split_first_sound colon username expiry user e in
        let same : user ≡ user_id = ground (arith, e, f, h) in
        record {
          expiry = expiry;
          expires = z;
          spelling = sp ∙ ap (λ u. expiry ++ (colon ∷ u)) same;
          no_colon = nc;
          numeral = f;
          user = ground (arith, e, f, h);
          in_time = ground (arith, e, f, h);
        }
  ]
]

format_int-NoColon : (z : ℤ) → IsInt64 z → NoColon (format_int z)
format_int-NoColon z h =
    All-imp SignOrDigit (λ c. (c == colon) ≡ false) (format_int z) (λ c d. ground (arith, d))
      (format_int-SignOrDigit z h)

pub generated_username :
    (z : ℤ) (user_id : Bytes) (later : ℤ)
    → IsInt64 z
    → is_empty user_id ≡ false
    → validate_username later (format_int z ++ (colon ∷ user_id))
      ≡ (if ltb_ℤ z (unix later) then none else some user_id)
unfolding validate_username
generated_username z user_id later v named = ground (
  arith,
  split_first_complete colon (format_int z) user_id (format_int-NoColon z v),
  parse_int-format_int z v,
  named,
)

module _ (hmac_sha1 : Bytes → Bytes → Bytes) where
  -- A user name and a password are accepted for a user exactly if the password is the one that the
  -- secret gives for the name, and the name is the decimal time of expiry, which has not passed, a
  -- colon and the user's ID, which is not empty.
  pub validate_credentials_iff :
      (username password secret user_id : Bytes) (now : ℤ)
      → (validate_credentials hmac_sha1 username password secret now ≡ some user_id)
        ↔ ((password ≡ compute_password hmac_sha1 secret username) × Accepts now username user_id)
  unfolding validate_credentials
  validate_credentials_iff username password secret user_id now = (
    λ h. elim (Option-cases (validate_username now username)) [
      | inl e ↦ absurd (ground (arith, e, h))
      | inr (u, e) ↦ (
        ground (arith, e, h, beq_iff password (compute_password hmac_sha1 secret username)),
        validate_username_sound now username user_id (ground (arith, e, h)),
      )
    ],
    λ (e, a). ground (
      arith,
      e,
      validate_username_complete now username user_id a,
      beq_iff password (compute_password hmac_sha1 secret username),
    ),
  )

  -- Generated credentials of a user with an ID are accepted for this user, whatever the ID
  -- contains, up to the second of their expiry, and refused from the next second on.
  pub generated_credentials :
      (secret user_id : Bytes) (validity now later : ℤ)
      → is_empty user_id ≡ false
      → IsInt64 (unix (now +ℤ validity))
      → let (username, password) = generate_credentials hmac_sha1 secret user_id validity now in
        validate_credentials hmac_sha1 username password secret later
        ≡ (if ltb_ℤ (unix (now +ℤ validity)) (unix later) then none else some user_id)
  unfolding generate_credentials validate_credentials
  generated_credentials secret user_id validity now later named v =
      let username = format_int (unix (now +ℤ validity)) ++ (colon ∷ user_id) in
      ground (
        arith,
        generated_username (unix (now +ℤ validity)) user_id later v named,
        beq_refl (compute_password hmac_sha1 secret username),
      )
