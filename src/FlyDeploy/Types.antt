-- ===== src/FlyDeploy/Types.antt =====
-- internal/flydeploy/types.go: the data of the Fly Machines API. A nil map or pointer is `none`.
use turnfly.Prelude.{ℕ, ◌++◌, Option, List, if◌then◌else◌}
use turnfly.Int.{ℤ}
use turnfly.Text.{Bytes, codes, is_empty}
use turnfly.Map.{Map}

pub record CreateAppRequest : Type 0 where
  pub app_name : Bytes
  pub org_slug : Bytes
  pub network : Bytes

pub record Organization : Type 0 where
  pub name : Bytes
  pub slug : Bytes

pub record App : Type 0 where
  pub id : Bytes
  pub name : Bytes
  pub org_slug : Bytes
  pub status : Bytes
  pub network : Bytes
  pub organization : Organization

-- `App.EffectiveOrgSlug`
unfoldable pub effective_org_slug : App → Bytes
effective_org_slug a = if is_empty a.organization.slug then a.org_slug else a.organization.slug

pub record MachinePort : Type 0 where
  pub port : ℤ
  pub handlers : List Bytes

pub record ServiceConcurrency : Type 0 where
  pub kind : Bytes
  pub hard_limit : ℤ
  pub soft_limit : ℤ

pub record MachineService : Type 0 where
  pub protocol : Bytes
  pub internal_port : ℤ
  pub ports : List MachinePort
  pub concurrency : Option ServiceConcurrency

pub record MachineGuest : Type 0 where
  pub cpu_kind : Bytes
  pub cpus : ℤ
  pub memory_mb : ℤ

pub record MachineConfig : Type 0 where
  pub image : Bytes
  pub env : Option (Map Bytes)
  pub services : List MachineService
  pub guest : Option MachineGuest
  pub metadata : Option (Map Bytes)

pub record CreateMachineRequest : Type 0 where
  pub name : Bytes
  pub region : Bytes
  pub config : MachineConfig

pub record Machine : Type 0 where
  pub id : Bytes
  pub name : Bytes
  pub region : Bytes
  pub state : Bytes
  pub config : MachineConfig
  pub image_ref : Bytes

pub record IpAddress : Type 0 where
  pub id : Bytes
  pub address : Bytes
  pub kind : Bytes
  pub region : Bytes
  pub created_at : Bytes

pub record AllocateIpRequest : Type 0 where
  pub kind : Bytes
  pub region : Bytes
  pub org_slug : Bytes

-- The errors of the package: those of `doRequest`, those of the deployer, and the text that
-- `fmt.Errorf("…: %w", err)` puts before another error. `api_error` is `APIError`.
pub data FlyError : Type 0 where
  create_request : Bytes → FlyError
  http_request : Bytes → FlyError
  api_error : ℕ → Bytes → FlyError
  decode_response : FlyError
  required : Bytes → FlyError
  context_done : FlyError
  in_state : Bytes → Bytes → FlyError
  timed_out : Bytes → FlyError
  not_reached : Bytes → Bytes → FlyError
  wrapped : Bytes → FlyError → FlyError

-- `APIError`; `doRequest` makes it without details.
pub record ApiError : Type 0 where
  pub status_code : ℕ
  pub message : Bytes
  pub details : Bytes

-- `(*APIError).Error`
pub error_text : ApiError → Bytes
error_text e = if is_empty e.details then e.message else e.message ++ codes ": " ++ e.details
