-- ===== src/ControlApi/Handlers.antt =====
-- internal/controlapi/controlapi.go: the handlers, the check of the admin token, and the routes.
use turnfly.Prelude.{
  ℕ, ◌+◌, ◌*◌, ◌/◌, Bool, false, not, ◌||◌, Option, none, some, List, [], length, take, drop, ltb,
  leb, map, if◌then◌else◌, suc,
}
use turnfly.Int.{ℤ, pos, negsuc, ltb_ℤ, wrap_int64, sub_ℕ}
use turnfly.Text.{Bytes, codes, is_empty, beq}
use turnfly.Clock.{second}
use turnfly.Map
use turnfly.Map.{Map}
use turnfly.Health.{healthz, readyz}
use turnfly.Regions.{Region, Store, generate_multi_region_uris}
use turnfly.Regions
use turnfly.Auth.{generate_credentials}
use turnfly.ControlApi.Types.{
  Server, Request, CredentialsRequest, IceReportRequest, RegionEntry, error_body, credentials_body,
  regions_body, recorded_body, health_body, ready_body, metrics_body, not_found_body, redirect_body,
  Response,
}

-- `writeJSONError`
abbrev pub json_error : ℕ → Bytes → Response
json_error status message = record { code = status; body = error_body message }

abbrev method_not_allowed : Response
method_not_allowed = json_error 405 (codes "method not allowed")

abbrev pub is_method : Bytes → Request → Bool
is_method m r = beq r.method m

-- `int(validity.Seconds())`, rounded towards zero: exact for whole seconds.
unfoldable pub whole_seconds : ℤ → ℤ
whole_seconds (pos n) = pos (n / second)
whole_seconds (negsuc n) = sub_ℕ 0 (suc n / second)

-- `time.Duration(n) * time.Second`
unfoldable pub seconds : ℤ → ℤ
seconds (pos n) = wrap_int64 (pos (n * second))
seconds (negsuc n) = wrap_int64 (sub_ℕ 0 (suc n * second))

abbrev pub bearer : Bytes
bearer = codes "Bearer "

abbrev pub Handler : Type 0 → Type 0
Handler W = Server W → Request → Server W × Response

-- `(*Server).requireAdmin`
unfoldable pub require_admin : {W : Type 0} → Handler W → Handler W
require_admin next s r =
    if is_empty r.authorization
    then (s, json_error 401 (codes "missing Authorization header"))
    else if leb (length r.authorization) (length bearer)
        || not (beq (take (length bearer) r.authorization) bearer)
    then (s, json_error 401 (codes "invalid Authorization header format"))
    else if not (beq (drop (length bearer) r.authorization) s.admin_token)
    then (s, json_error 403 (codes "invalid admin token"))
    else next s r

-- `(*Server).handleDeploy`
unfoldable pub handle_deploy : {W : Type 0} → Handler W
handle_deploy s r =
    if not (is_method (codes "POST") r)
    then (s, method_not_allowed)
    else (s, json_error 501 (codes "server-side deploy not yet wired (use CLI: turnfly deploy)"))

-- What `ServeMux` answers to a request without a route.
abbrev unrouted_answer : Request → Response
unrouted_answer r = elim r.cleaner_path [
  | none ↦ record { code = 404; body = not_found_body }
  | some path ↦ record { code = 301; body = redirect_body path }
]

-- The two endpoints of the health service.
abbrev pub serve_health : {W : Type 0} → W → Handler W
serve_health w s r =
    let (h, answer) = healthz w r.method s.health_service in
    (record s { health_service = h }, record { code = answer.code; body = health_body answer.body })

abbrev pub serve_ready : {W : Type 0} → Handler W
serve_ready s r =
    let (code, status) = readyz r.method s.health_service in
    (s, record { code = code; body = ready_body status })

-- The validity of a request, or the server's.
abbrev pub validity_of : {W : Type 0} → Server W → CredentialsRequest → ℤ
validity_of s req = if ltb_ℤ (pos 0) req.validity then seconds req.validity else s.cred_validity

-- The URIs of the registered regions, if there is a store with a region.
abbrev pub uris_of : Option Store → Bytes → Bytes → List Bytes
uris_of none username password = []
uris_of (some store) username password =
    if ltb 0 (Regions.count store)
    then generate_multi_region_uris store username password false
    else []

-- A deployed region with its well-known name, or with its code for a name.
abbrev region_entry : (Bytes → Bytes) → Region → RegionEntry
region_entry well_known r = record {
  code = r.code;
  name = if is_empty (well_known r.code) then r.code else well_known r.code;
  host = some r.host;
}

abbrev well_known_entry : Bytes × Bytes → RegionEntry
well_known_entry (code, name) = record { code = code; name = name; host = none }

-- What `handleRegions` lists: the deployed regions, or else the well-known ones.
unfoldable pub listed_regions : Map Bytes → Option Store → List RegionEntry
listed_regions well_known none = map well_known_entry well_known.entries
listed_regions well_known (some store) =
    if ltb 0 (Regions.count store)
    then map (region_entry (λ code. elim (Map.get well_known code) [ none ↦ [] | some n ↦ n ]))
        (Regions.list store)
    else map well_known_entry well_known.entries

-- Adds one to the counter of a label.
abbrev pub increment : Map ℕ → Bytes → Map ℕ
increment m label = Map.put m label (elim (Map.get m label) [ none ↦ 1 | some n ↦ n + 1 ])

-- `hmac_sha1` is that of package auth; the decoders are those of encoding/json for the bodies of
-- requests; `well_known` is `regions.WellKnownRegions()`.
module _ {W : Type 0} (hmac_sha1 : Bytes → Bytes → Bytes)
    (decode_credentials : Bytes → Option CredentialsRequest)
    (decode_ice_report : Bytes → Option IceReportRequest) (well_known : Map Bytes) where
  -- `(*Server).handleCredentials` at the wall time `now`.
  unfoldable pub handle_credentials : ℤ → Handler W
  handle_credentials now s r =
      if not (is_method (codes "POST") r)
      then (s, method_not_allowed)
      else elim (decode_credentials r.body) [
        | none ↦ (s, json_error 400 (codes "invalid request body"))
        | some req ↦
            if is_empty req.user_id
            then (s, json_error 400 (codes "user_id is required"))
            else let validity = validity_of s req in
              let (username, password) =
                generate_credentials hmac_sha1 s.shared_secret req.user_id validity now in
              (
                s,
                record {
                  code = 200;
                  body = credentials_body (record {
                    username = username;
                    password = password;
                    ttl = whole_seconds validity;
                    uris = uris_of s.region_store username password;
                  });
                },
              )
      ]

  -- `(*Server).handleRegions`
  unfoldable pub handle_regions : Handler W
  handle_regions s r = if not (is_method (codes "GET") r) then (s, method_not_allowed) else (
    s,
    record { code = 200; body = regions_body (listed_regions well_known s.region_store) },
  )

  -- `(*Server).handleICEReport`
  unfoldable pub handle_ice_report : Handler W
  handle_ice_report s r =
      if not (is_method (codes "POST") r)
      then (s, method_not_allowed)
      else elim (decode_ice_report r.body) [
        | none ↦ (s, json_error 400 (codes "invalid request body"))
        | some req ↦
            if is_empty req.selected_region
            then (s, json_error 400 (codes "selected_region is required"))
            else (
              record s { wins = increment s.wins req.selected_region },
              record { code = 200; body = recorded_body },
            )
      ]

  -- The routes of `registerRoutes`, whose paths `ServeMux` matches whole, at the time `now` and for
  -- checks that read `w`.
  unfoldable pub serve : ℤ → W → Handler W
  serve now w s r =
      if beq r.path (codes "/v1/credentials")
      then handle_credentials now s r
      else if beq r.path (codes "/healthz")
      then serve_health w s r
      else if beq r.path (codes "/readyz")
      then serve_ready s r
      else if beq r.path (codes "/metrics")
      then (s, record { code = 200; body = metrics_body })
      else if beq r.path (codes "/v1/deploy")
      then require_admin handle_deploy s r
      else if beq r.path (codes "/v1/regions")
      then handle_regions s r
      else if beq r.path (codes "/v1/ice-report")
      then handle_ice_report s r
      else (s, unrouted_answer r)
