-- ===== src/ControlApi/Types.antt =====
-- internal/controlapi/controlapi.go: the server, and the requests and responses of its handlers.
use turnfly.Prelude.{ℕ, Option, List}
use turnfly.Int.{ℤ}
use turnfly.Text.{Bytes}
use turnfly.Map.{Map}
use turnfly.Health.{Service, Status}
use turnfly.Regions.{Store}

-- `W` is the state that the health checks read. A nil store is `none`. `wins` is the metric
-- `RegionCandidateWinsTotal` by its label.
pub record Server (W : Type 0) : Type 0 where
  pub shared_secret : Bytes
  pub admin_token : Bytes
  pub cred_validity : ℤ
  pub health_service : Service W
  pub region_store : Option Store
  pub wins : Map ℕ

-- A request, with the cleaner path that `ServeMux` redirects to if it finds its own path unclean:
-- with dots or repeated slashes.
pub record Request : Type 0 where
  pub method : Bytes
  pub path : Bytes
  pub cleaner_path : Option Bytes
  pub authorization : Bytes
  pub body : Bytes

pub record CredentialsRequest : Type 0 where
  pub user_id : Bytes
  pub validity : ℤ

pub record CredentialsResponse : Type 0 where
  pub username : Bytes
  pub password : Bytes
  pub ttl : ℤ
  pub uris : List Bytes

pub record IceReportRequest : Type 0 where
  pub selected_region : Bytes
  pub local_candidate : Bytes
  pub remote_candidate : Bytes
  pub pair_type : Bytes
  pub rtt_ms : ℤ

-- A region as the list of regions shows it: its host is left out for the well-known ones.
pub record RegionEntry : Type 0 where
  pub code : Bytes
  pub name : Bytes
  pub host : Option Bytes

-- The value that is encoded as the body of a response.
pub data Body : Type 0 where
  error_body : Bytes → Body
  credentials_body : CredentialsResponse → Body
  regions_body : List RegionEntry → Body
  recorded_body : Body
  health_body : Option (Status × Map Bytes) → Body
  ready_body : Option Status → Body
  metrics_body : Body
  not_found_body : Body
  -- The path of the `Location` header.
  redirect_body : Bytes → Body
  -- An error behind what was written before it.
  and_error : Body → Bytes → Body

pub record Response : Type 0 where
  pub code : ℕ
  pub body : Body
