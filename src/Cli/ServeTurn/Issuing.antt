-- ===== src/Cli/ServeTurn/Issuing.antt =====
-- The credentials that the control API of a running `serve-turn` issues, at its TURN server.
mod Tests
use turnfly.Prelude.{
  ℕ, ◌+◌, ◌≡◌, refl, sym, ap, subst, ◌∙◌, true, false, Option, none, some, List, [], ◌∷◌, ◌++◌,
  if◌then◌else◌,
}
use turnfly.Int.{ℤ, pos, ◌+ℤ◌, ltb_ℤ, IsInt64}
use turnfly.Text.{Bytes, codes, is_empty, beq}
use turnfly.Text.Decimal.{format_int}
use turnfly.Result.{ok}
use turnfly.Map.{Map}
use turnfly.Regions.{Store}
use turnfly.Auth.{unix, colon, generate_credentials, format_turn_server_url}
use turnfly.TurnServer.{auth_handler}
use turnfly.TurnServer.Issued.{auth_handler_lem}
use turnfly.ControlApi.Types.{
  Server, Request, CredentialsRequest, CredentialsResponse, IceReportRequest, credentials_body,
}
use turnfly.ControlApi.Handlers.{
  is_method, handle_credentials, serve, validity_of, uris_of, seconds,
}
use turnfly.ControlApi.Issuing.{issued, handle_credentials-issued}
use turnfly.ControlApi.Routes.{serve_all, serve_all-Gains}
use turnfly.Cli.ServeTurn.{ServeFlags, Services, serve_config, serve_turn}
use turnfly.Cli.ServeTurn.Started.{is_on_fly, serve_turn_lem}

module _ (hmac_sha1 : Bytes → Bytes → Bytes) (generate_auth_key : Bytes → Bytes → Bytes → Bytes)
    (decode_credentials : Bytes → Option CredentialsRequest)
    (decode_ice_report : Bytes → Option IceReportRequest) (well_known : Map Bytes) where
  issued_username :
      (server : Server Store) (req : CredentialsRequest) (now validity : ℤ)
      → validity_of server req ≡ validity
      → (issued hmac_sha1 decode_credentials decode_ice_report well_known server req now).username
        ≡ format_int (unix (now +ℤ validity)) ++ (colon ∷ req.user_id)
  unfolding generate_credentials
  issued_username server req now validity e =
      ap (λ d. format_int (unix (now +ℤ d)) ++ (colon ∷ req.user_id)) e

  serve_credentials :
      (now : ℤ) (w : Store) (server : Server Store) (r : Request)
      → beq r.path (codes "/v1/credentials") ≡ true
      → serve hmac_sha1 decode_credentials decode_ice_report well_known now w server r
        ≡ handle_credentials hmac_sha1 decode_credentials decode_ice_report well_known now server r
  unfolding serve
  serve_credentials now w server r e = rw (e, serve) refl

  -- The server behind requests.
  abbrev behind : Services → List (ℤ × Store × Request) → Server Store
  behind s before = serve_all hmac_sha1 decode_credentials decode_ice_report well_known before s.api

  -- If serve-turn starts, then, whatever requests its control API has answered, a POST to
  -- /v1/credentials whose body names a user is answered 200, with a user name for which the
  -- authentication of its TURN server returns the key of the name and the shared secret up to the
  -- second of the expiry, and then no key and one more failure; and with one URI, of the TURN port
  -- and an empty host, on Fly in a known region and with none elsewhere. The expiry is within
  -- int64.
  pub serve_turn-serve :
      (getenv : Bytes → Bytes) (flags : ServeFlags) (s : Services)
      (before : List (ℤ × Store × Request)) (now : ℤ) (w : Store) (r : Request)
      (req : CredentialsRequest)
      → serve_turn getenv flags ≡ ok s
      → beq r.path (codes "/v1/credentials") ≡ true
      → is_method (codes "POST") r ≡ true
      → decode_credentials r.body ≡ some req
      → is_empty req.user_id ≡ false
      → IsInt64 (unix (now +ℤ validity_of s.api req))
      → (resp : CredentialsResponse) × (serve hmac_sha1 decode_credentials decode_ice_report
            well_known now w
            (behind s before)
            r
          ≡ (behind s before, record { code = 200; body = credentials_body resp }))
        × ((later : ℤ) (failures : ℕ)
            → auth_handler generate_auth_key s.turn later failures resp.username ≡ (
                if ltb_ℤ (unix (now +ℤ validity_of s.api req)) (unix later)
                then (failures + 1, none)
                else (
                  failures,
                  some (generate_auth_key resp.username s.turn.realm s.turn.shared_secret),
                )))
        × (resp.uris ≡ (
            if is_on_fly (serve_config getenv flags) (getenv (codes "FLY_REGION"))
            then format_turn_server_url []
                (serve_config getenv flags).turn_port
                resp.username
                resp.password
                false
              ∷ []
            else []))
  serve_turn-serve getenv flags s before now w r req starts path post decoded named v =
      let server = behind s before in
      let kept =
        serve_all-Gains hmac_sha1 decode_credentials decode_ice_report well_known [] before s.api in
      let (valid, used, status, uris) = (serve_turn_lem getenv flags s starts).1 in
      let resp = issued hmac_sha1 decode_credentials decode_ice_report well_known server req now in
      let expiry = unix (now +ℤ validity_of s.api req) in
      let named_so =
        issued_username server req now (validity_of s.api req) (
          ap (λ d. if ltb_ℤ (pos 0) req.validity then seconds req.validity else d) kept.validity) in
      (
        resp,
        serve_credentials now w server r path
            ∙ handle_credentials-issued hmac_sha1 decode_credentials decode_ice_report well_known
                server r req now post decoded named,
        λ later failures.
            subst
              (λ u. auth_handler generate_auth_key s.turn later failures u ≡ (
                if ltb_ℤ expiry (unix later)
                then (failures + 1, none)
                else (failures, some (generate_auth_key u s.turn.realm s.turn.shared_secret))))
              (sym named_so)
              (auth_handler_lem generate_auth_key s.turn expiry req.user_id later failures v named),
        ap (λ store. uris_of store resp.username resp.password) kept.store
            ∙ uris resp.username resp.password,
      )
