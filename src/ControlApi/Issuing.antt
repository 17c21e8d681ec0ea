-- ===== src/ControlApi/Issuing.antt =====
-- The credentials that the API issues, against their validation.
use turnfly.Prelude.{◌≡◌, refl, true, false, Option, none, some, if◌then◌else◌}
use turnfly.Int.{ℤ, ◌+ℤ◌, ltb_ℤ, IsInt64}
use turnfly.Text.{Bytes, codes, is_empty}
use turnfly.Map.{Map}
use turnfly.Auth.{unix, generate_credentials, validate_credentials}
use turnfly.Auth.Validity.{generated_credentials}
use turnfly.ControlApi.Types.{
  Server, Request, CredentialsRequest, CredentialsResponse, IceReportRequest, credentials_body,
}
use turnfly.ControlApi.Handlers.{handle_credentials, is_method, validity_of, uris_of, whole_seconds}

module _ {W : Type 0} (hmac_sha1 : Bytes → Bytes → Bytes)
    (decode_credentials : Bytes → Option CredentialsRequest)
    (decode_ice_report : Bytes → Option IceReportRequest) (well_known : Map Bytes) where
  -- The credentials that the server issues at the wall time `now`.
  abbrev pub issued : Server W → CredentialsRequest → ℤ → CredentialsResponse
  issued s req now =
      let (username, password) =
        generate_credentials hmac_sha1 s.shared_secret req.user_id (validity_of s req) now in
      record {
        username = username;
        password = password;
        ttl = whole_seconds (validity_of s req);
        uris = uris_of s.region_store username password;
      }

  pub handle_credentials-issued :
      (s : Server W) (r : Request) (req : CredentialsRequest) (now : ℤ)
      → is_method (codes "POST") r ≡ true
      → decode_credentials r.body ≡ some req
      → is_empty req.user_id ≡ false
      → handle_credentials hmac_sha1 decode_credentials decode_ice_report well_known now s r
        ≡ (s, record { code = 200; body = credentials_body (issued s req now) })
  unfolding handle_credentials
  handle_credentials-issued s r req now post decoded named =
      rw (post, decoded, named, handle_credentials) refl

  -- A POST whose body names a user is answered 200, with credentials that the TURN server's
  -- validation accepts for this user until they expire and refuses afterwards; the server does not
  -- change. The expiry is within int64.
  pub handle_credentials_lem :
      (s : Server W) (r : Request) (req : CredentialsRequest) (now : ℤ)
      → is_method (codes "POST") r ≡ true
      → decode_credentials r.body ≡ some req
      → is_empty req.user_id ≡ false
      → IsInt64 (unix (now +ℤ validity_of s req))
      → (resp : CredentialsResponse) × (handle_credentials hmac_sha1 decode_credentials
            decode_ice_report well_known now s r
          ≡ (s, record { code = 200; body = credentials_body resp }))
        × (resp.uris ≡ uris_of s.region_store resp.username resp.password)
        × ((later : ℤ)
            → validate_credentials hmac_sha1 resp.username resp.password s.shared_secret later ≡ (
                if ltb_ℤ (unix (now +ℤ validity_of s req)) (unix later)
                then none
                else some req.user_id))
  handle_credentials_lem s r req now post decoded named v = (
    issued s req now,
    handle_credentials-issued s r req now post decoded named,
    refl,
    λ later.
        generated_credentials hmac_sha1 s.shared_secret req.user_id (validity_of s req) now later
          named v,
  )
