-- ===== src/ControlApi/Middleware.antt =====
-- internal/controlapi/controlapi.go: `NewServer`, and the recovery from panics around its routes.
use turnfly.Prelude.{Option, none, some}
use turnfly.Int.{ℤ}
use turnfly.Text.{Bytes, codes}
use turnfly.Map
use turnfly.Map.{Map}
use turnfly.Health.{Service}
use turnfly.Regions.{Store}
use turnfly.ControlApi.Types.{
  Server, Request, Response, and_error, CredentialsRequest, IceReportRequest,
}
use turnfly.ControlApi.Handlers.{Handler, json_error, serve}

-- `NewServer`; a nil store is none.
abbrev pub new_server : {W : Type 0} → Bytes → Bytes → ℤ → Service W → Option Store → Server W
new_server secret token validity service store = record {
  shared_secret = secret;
  admin_token = token;
  cred_validity = validity;
  health_service = service;
  region_store = store;
  wins = Map.empty;
}

-- A handler returns with its response, or it panics with what it has written of one.
pub data Served (W : Type 0) : Type 0 where
  returned : Server W → Response → Served W
  panicked : Server W → Option Response → Served W

abbrev pub panic_message : Bytes
panic_message = codes "internal server error"

-- The deferred function of `withMiddleware`: a status that is already written stays.
pub recover : {W : Type 0} → Served W → Server W × Response
recover (returned s r) = (s, r)
recover (panicked s none) = (s, json_error 500 panic_message)
recover (panicked s (some r)) = (s, record { code = r.code; body = and_error r.body panic_message })

-- `withMiddleware`
pub with_middleware : {W : Type 0} → (Server W → Request → Served W) → Handler W
unfolding recover
with_middleware next s r = recover (next s r)

module _ {W : Type 0} (hmac_sha1 : Bytes → Bytes → Bytes)
    (decode_credentials : Bytes → Option CredentialsRequest)
    (decode_ice_report : Bytes → Option IceReportRequest) (well_known : Map Bytes) where
  -- `(*Server).Handler`, for checks that return: then the routes do.
  pub handler : ℤ → W → Handler W
  unfolding with_middleware
  handler now w = with_middleware (λ s r.
      let (s', response) =
        serve hmac_sha1 decode_credentials decode_ice_report well_known now w s r in
      returned s' response)
