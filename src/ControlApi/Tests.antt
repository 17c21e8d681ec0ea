-- ===== src/ControlApi/Tests.antt =====
-- The control API with one region.
use turnfly.Prelude.{
  ◌≡◌, refl, ◌⊎◌, ◌*◌, none, some, Option, List, ◌∷◌, [], ◌++◌, if◌then◌else◌, arith,
}
use turnfly.Int.{ℤ, pos, ◌+ℤ◌, ltb_ℤ, IsInt64, wrap_int64, to_u64, of_u64}
use turnfly.Text.{Bytes, codes, beq}
use turnfly.Clock.{second}
use turnfly.Map
use turnfly.Health
use turnfly.Auth.{unix, validate_credentials}
use turnfly.ControlApi.Types.{
  Server, Request, IceReportRequest, CredentialsRequest, CredentialsResponse, credentials_body,
}
use turnfly.ControlApi.Handlers.{
  require_admin, handle_deploy, handle_credentials, seconds, uris_of, validity_of,
}
use turnfly.ControlApi.Reports.{Gains, reported, reports}
use turnfly.ControlApi.Routes.{serve_all, serve_all-Gains}
use turnfly.ControlApi.Admin.{IsAdmin, Refused, require_admin_lem}
use turnfly.ControlApi.Issuing.{handle_credentials_lem}

abbrev server : Server Unit
unfolding Health.new_service Map.empty
server = record {
  shared_secret = codes "s";
  admin_token = codes "tok";
  cred_validity = pos (3600 * second);
  health_service = Health.new_service;
  region_store = none;
  wins = Map.empty;
}

abbrev deploy_request : Request
deploy_request = record {
  method = codes "POST";
  path = codes "/v1/deploy";
  cleaner_path = none;
  authorization = codes "Bearer tok";
  body = [];
}

admin_passes : (require_admin handle_deploy server deploy_request).1.code ≡ 501
unfolding require_admin handle_deploy beq server
admin_passes = refl

require_admin_lem_example :
    (IsAdmin server deploy_request
      × (require_admin handle_deploy server deploy_request ≡ handle_deploy server deploy_request))
    ⊎ ((IsAdmin server deploy_request → ⊥) × Refused handle_deploy server deploy_request)
require_admin_lem_example = require_admin_lem handle_deploy server deploy_request

abbrev pub alice : CredentialsRequest
alice = record { user_id = codes "alice"; validity = pos 60 }

abbrev pub toy_mac : Bytes → Bytes → Bytes
toy_mac secret message = secret ++ message

abbrev pub start : ℤ
start = pos (1_700_000_000 * second)

expiry_fits : IsInt64 (unix (start +ℤ validity_of server alice))
unfolding unix ◌+ℤ◌ seconds wrap_int64 to_u64 of_u64
expiry_fits = omega arith

alice_served :
    (resp : CredentialsResponse) × (handle_credentials toy_mac
        (λ b. some alice)
        (λ b. none)
        Map.empty
        start
        server
        deploy_request
      ≡ (server, record { code = 200; body = credentials_body resp }))
    × (resp.uris ≡ uris_of server.region_store resp.username resp.password)
    × ((later : ℤ)
        → validate_credentials toy_mac resp.username resp.password server.shared_secret later ≡ (
            if ltb_ℤ (unix (start +ℤ validity_of server alice)) (unix later)
            then none
            else some alice.user_id))
unfolding beq
alice_served =
    handle_credentials_lem toy_mac (λ b. some alice) (λ b. none) Map.empty server deploy_request
      alice start refl refl refl expiry_fits

-- A body is the region that it selects.
abbrev pub decode_report : Bytes → Option IceReportRequest
decode_report body = some (record {
  selected_region = body;
  local_candidate = [];
  remote_candidate = [];
  pair_type = [];
  rtt_ms = pos 0;
})

abbrev pub report_of : Bytes → Request
report_of region = record {
  method = codes "POST";
  path = codes "/v1/ice-report";
  cleaner_path = none;
  authorization = [];
  body = region;
}

-- Two reports of one region, one of another, and a refused deployment.
abbrev requests : List {0} (ℤ × Unit {0} × Request)
requests =
    (start, tt, report_of (codes "iad"))
    ∷ (start, tt, deploy_request)
    ∷ (start, tt, report_of (codes "ord"))
    ∷ (start, tt, report_of (codes "iad"))
    ∷ []

two_reports : reported decode_report (codes "iad") requests ≡ 2
unfolding reported reports beq
two_reports = refl

serve_all-Gains_example :
    Gains
      (codes "iad")
      (reported decode_report (codes "iad") requests)
      server
      (serve_all toy_mac (λ b. some alice) decode_report Map.empty requests server)
serve_all-Gains_example =
    serve_all-Gains toy_mac (λ b. some alice) decode_report Map.empty (codes "iad") requests server
