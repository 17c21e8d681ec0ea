-- ===== src/FlyDeploy/Plan.antt =====
-- internal/flydeploy/deployer.go: the configuration of a deployment, and what is wanted of it.
use turnfly.Prelude.{
  ◌*◌, Bool, true, false, Option, none, some, List, [], ◌∷◌, ◌++◌, ◌==◌, length, if◌then◌else◌,
}
use turnfly.Int.{ℤ, pos, eq_ℤ}
use turnfly.Clock.{minute}
use turnfly.Text.{Bytes, codes, is_empty}
use turnfly.Map
use turnfly.Map.{Map}
use turnfly.FlyDeploy.Types.{
  App, MachineService, MachineGuest, MachineConfig, CreateMachineRequest, Machine, IpAddress,
}

pub record DeployConfig : Type 0 where
  pub app_name : Bytes
  pub org_slug : Bytes
  pub regions : List Bytes
  pub image : Bytes
  pub env : Option (Map Bytes)
  pub machine_name : Bytes
  pub guest : MachineGuest
  pub health_port : ℤ
  pub health_timeout : ℤ

pub record DeployResult : Type 0 where
  pub app : App
  pub machines : List Machine
  pub ips : List IpAddress
  pub dry_run : Bool
  pub regions : List Bytes

-- The defaults that `Deploy` fills in.
unfoldable pub with_defaults : DeployConfig → DeployConfig
with_defaults cfg = record cfg {
  health_timeout = if eq_ℤ cfg.health_timeout (pos 0) then pos (5 * minute) else cfg.health_timeout;
  health_port = if eq_ℤ cfg.health_port (pos 0) then pos 8080 else cfg.health_port;
  machine_name = if is_empty cfg.machine_name then codes "turnfly" else cfg.machine_name;
}

-- The four checks of the configuration, in their order.
unfoldable pub missing : DeployConfig → Option Bytes
missing cfg =
    if is_empty cfg.app_name
    then some (codes "app name is required")
    else if is_empty cfg.org_slug
    then some (codes "org slug is required")
    else if length cfg.regions == 0
    then some (codes "at least one region is required")
    else if is_empty cfg.image
    then some (codes "image is required")
    else none

abbrev turn_service : Bytes → MachineService
turn_service protocol = record {
  protocol = protocol;
  internal_port = pos 3478;
  ports = record { port = pos 3478; handlers = [] } ∷ [];
  concurrency = none;
}

abbrev health_service : ℤ → MachineService
health_service port = record {
  protocol = codes "tcp";
  internal_port = port;
  ports = record { port = pos 80; handlers = codes "http" ∷ [] } ∷ [];
  concurrency =
      some (record { kind = codes "connections"; hard_limit = pos 1000; soft_limit = pos 800 });
}

-- `desiredConfig` of `ensureMachine`.
unfoldable pub desired_config : DeployConfig → MachineConfig
desired_config cfg = record {
  image = cfg.image;
  env = cfg.env;
  guest = some cfg.guest;
  services =
      turn_service (codes "udp") ∷ turn_service (codes "tcp") ∷ health_service cfg.health_port ∷ [];
  metadata = none;
}

-- The request for the machine of a region.
abbrev pub machine_request : DeployConfig → Bytes → CreateMachineRequest
machine_request cfg region = record {
  name = cfg.machine_name ++ (45 ∷ region);
  region = region;
  config = desired_config cfg;
}

-- `existingByRegion`: of two machines in a region the later one is kept.
unfoldable pub by_region : Map Machine → List Machine → Map Machine
by_region m [] = m
by_region m (x ∷ xs) = by_region (if is_empty x.region then m else Map.put m x.region x) xs

-- `desiredRegions`: the regions as they are written in the configuration.
unfoldable pub desired_regions : Map Bool → List Bytes → Map Bool
desired_regions m [] = m
desired_regions m (r ∷ rs) = desired_regions (Map.put m r true) rs

abbrev pub is_desired : Map Bool → Bytes → Bool
is_desired m r = elim (Map.get m r) [ none ↦ false | some b ↦ b ]
