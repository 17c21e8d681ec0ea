-- ===== src/Cli/ServeTurn/Issuing/Tests.antt =====
-- A user of a running `serve-turn`, behind an ICE report.
use turnfly.Prelude.{
  ◌≡◌, refl, arith, false, ◌+◌, ℕ, none, some, List, [], ◌∷◌, ◌++◌, if◌then◌else◌,
}
use turnfly.Int.{ℤ, ◌+ℤ◌, ltb_ℤ, IsInt64, wrap_int64, to_u64, of_u64}
use turnfly.Text.{Bytes, codes, beq}
use turnfly.Regions.{Store}
use turnfly.Regions.WellKnown.{well_known_regions}
use turnfly.Auth.{unix, format_turn_server_url}
use turnfly.TurnServer.{auth_handler}
use turnfly.ControlApi.Types.{Request, CredentialsResponse, credentials_body}
use turnfly.ControlApi.Handlers.{serve, validity_of, seconds}
use turnfly.ControlApi.Routes.{serve_all}
use turnfly.ControlApi.Tests.{alice, toy_mac, start, decode_report, report_of}
use turnfly.Cli.ServeTurn.{Services, serve_config, run_serve_turn}
use turnfly.Cli.ServeTurn.Started.{is_on_fly}
use turnfly.Cli.ServeTurn.Issuing.{serve_turn-serve}
use turnfly.Cli.Tests.{environment, serve_flags, starts}

abbrev services : Services
services = run_serve_turn (serve_config environment serve_flags) (codes "iad")

abbrev reports : List (ℤ × Store × Request)
reports = (start, services.store, report_of (codes "iad")) ∷ []

abbrev post_credentials : Request
post_credentials = record {
  method = codes "POST";
  path = codes "/v1/credentials";
  cleaner_path = none;
  authorization = [];
  body = codes "alice";
}

abbrev toy_key : Bytes → Bytes → Bytes → Bytes
toy_key username realm password = username ++ (realm ++ password)

expiry_fits : IsInt64 (unix (start +ℤ validity_of services.api alice))
unfolding unix ◌+ℤ◌ seconds wrap_int64 to_u64 of_u64
expiry_fits = omega arith

serve_turn-serve_example :
    let server =
      serve_all toy_mac (λ b. some alice) decode_report well_known_regions reports services.api in
    (resp : CredentialsResponse) × (serve toy_mac
        (λ b. some alice)
        decode_report
        well_known_regions
        start
        services.store
        server
        post_credentials
      ≡ (server, record { code = 200; body = credentials_body resp }))
    × ((later : ℤ) (failures : ℕ)
        → auth_handler toy_key services.turn later failures resp.username ≡ (
            if ltb_ℤ (unix (start +ℤ validity_of services.api alice)) (unix later)
            then (failures + 1, none)
            else (
              failures,
              some (toy_key resp.username services.turn.realm services.turn.shared_secret),
            )))
    × (resp.uris ≡ (
        if is_on_fly (serve_config environment serve_flags) (environment (codes "FLY_REGION"))
        then format_turn_server_url []
            (serve_config environment serve_flags).turn_port
            resp.username
            resp.password
            false
          ∷ []
        else []))
unfolding beq
serve_turn-serve_example =
    serve_turn-serve toy_mac toy_key (λ b. some alice) decode_report well_known_regions environment
      serve_flags services reports start services.store post_credentials alice starts refl refl refl
      refl expiry_fits
