-- ===== src/TurnServer/Issued.antt =====
-- The credentials that the control API issues, at the TURN server.
use turnfly.Prelude.{
  ℕ, ◌≡◌, refl, ◌∙◌, some, none, false, ◌+◌, ◌++◌, ◌∷◌, if◌then◌else◌, Bool-cases, inl, inr,
}
use turnfly.Int.{ℤ, ltb_ℤ, IsInt64}
use turnfly.Text.{Bytes, is_empty}
use turnfly.Text.Decimal.{format_int}
use turnfly.Auth.{unix, colon, validate_username}
use turnfly.Auth.Validity.{generated_username}
use turnfly.TurnServer.{TurnConfig, auth_handler}

module _ (generate_auth_key : Bytes → Bytes → Bytes → Bytes) where
  -- The two branches of the handler.
  auth_handler-some :
      (cfg : TurnConfig) (now : ℤ) (failures : ℕ) (username user_id : Bytes)
      → validate_username now username ≡ some user_id
      → auth_handler generate_auth_key cfg now failures username
        ≡ (failures, some (generate_auth_key username cfg.realm cfg.shared_secret))
  unfolding auth_handler
  auth_handler-some cfg now failures username user_id e = rw (e, auth_handler)

  auth_handler-none :
      (cfg : TurnConfig) (now : ℤ) (failures : ℕ) (username : Bytes)
      → validate_username now username ≡ none
      → auth_handler generate_auth_key cfg now failures username ≡ (failures + 1, none)
  unfolding auth_handler
  auth_handler-none cfg now failures username e = rw (e, auth_handler) refl

  -- For a user name with an expiry and an ID that is not empty, the handler returns the key of the
  -- shared secret up to the second of the expiry, and then none and one more failure.
  pub auth_handler_lem :
      (cfg : TurnConfig) (expiry : ℤ) (user_id : Bytes) (later : ℤ) (failures : ℕ)
      → IsInt64 expiry
      → is_empty user_id ≡ false
      → let username = format_int expiry ++ (colon ∷ user_id) in
        auth_handler generate_auth_key cfg later failures username ≡ (
          if ltb_ℤ expiry (unix later)
          then (failures + 1, none)
          else (failures, some (generate_auth_key username cfg.realm cfg.shared_secret)))
  auth_handler_lem cfg expiry user_id later failures v named =
      let username = format_int expiry ++ (colon ∷ user_id) in
      let checked = generated_username expiry user_id later v named in
      elim (Bool-cases (ltb_ℤ expiry (unix later))) [
        | inl e ↦ rw e (auth_handler-none cfg later failures username (checked ∙ rw e refl))
        | inr e ↦ rw e (auth_handler-some cfg later failures username user_id (checked ∙ rw e refl))
      ]
