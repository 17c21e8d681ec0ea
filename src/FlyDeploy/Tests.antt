-- ===== src/FlyDeploy/Tests.antt =====
-- The deployer against a small API.
use turnfly.Prelude.{
  All, ℕ, ◌+◌, ◌*◌, ◌/◌, ◌<◌, ◌≤◌, ◌≡◌, refl, true, false, Bool, none, some, [], ◌∷◌, length, arith,
}
use turnfly.Int.{pos}
use turnfly.Result.{ok}
use turnfly.Clock.{second}
use turnfly.Text.{Bytes, codes}
use turnfly.FlyDeploy.Types.{Machine, MachineConfig, App}
use turnfly.FlyDeploy.Transport.{
  Trace, sent, slept, World, Client, reply, method_get, request_of, machines_path, no_body,
  read_reply, do_request,
}
use turnfly.FlyDeploy.Client.{list_machines}
use turnfly.FlyDeploy.Plan.{DeployConfig, DeployResult, missing}
use turnfly.FlyDeploy.Waiting.{poll_health, wait_for_healthy}
use turnfly.FlyDeploy.Deployer.{deploy, converge}
use turnfly.FlyDeploy.Polling.{Ticks, wait_for_healthy_ends}
use turnfly.FlyDeploy.Polling.Health
use turnfly.FlyDeploy.Polling.Health.{wait_for_healthy_outcome}
use turnfly.FlyDeploy.Polling.State.{Outcome, wait_for_machine_outcome}
use turnfly.FlyDeploy.WaitForMachine.{wait_path, wait_for_machine}
use turnfly.FlyDeploy.DryRun.{planned, deploy_dry}
use turnfly.FlyDeploy.Effects.{Adds}
use turnfly.FlyDeploy.Removal.{Allowed, converge_removes}

abbrev pub two_regions : DeployConfig
two_regions = record {
  app_name = codes "turn";
  org_slug = codes "personal";
  regions = codes "iad" ∷ codes " ord" ∷ [];
  image = codes "img";
  env = none;
  machine_name = [];
  guest = record { cpu_kind = codes "shared"; cpus = pos 1; memory_mb = pos 256 };
  health_port = pos 0;
  health_timeout = pos 0;
}

abbrev pub machine_of : Bytes → Bytes → Machine
machine_of id region = record {
  id = id;
  name = codes "turnfly";
  region = region;
  state = codes "started";
  config = record { image = []; env = none; services = []; guest = none; metadata = none };
  image_ref = [];
}

-- A machine in a wanted region, and one in a region with a space before its name in the
-- configuration.
abbrev pub two_machines : turnfly.Prelude.List Machine
two_machines = machine_of (codes "m1") (codes "iad") ∷ machine_of (codes "m2") (codes "ord") ∷ []

-- The time that a trace takes.
abbrev elapsed : Trace → ℕ
elapsed [] = 0
elapsed (sent r ∷ t) = elapsed t
elapsed (slept n ∷ t) = elapsed t + n

-- An API whose answers decode to two machines or to one of them.
abbrev pub small_world : World
small_world = record {
  respond = λ t r. reply 200 [];
  decode_app = λ b. none;
  decode_apps = λ b. none;
  decode_machine = λ b. some (machine_of (codes "m1") (codes "iad"));
  decode_machines = λ b. some two_machines;
  decode_ip = λ b. none;
  decode_ips = λ b. none;
  clock = elapsed;
  interrupt = λ t n. none;
}

-- The escaping of a text with letters and digits only.
abbrev escaped : Bytes → Bytes
escaped s = s

small_world-Ticks : Ticks small_world
small_world-Ticks = record { sending = λ t r. omega arith; sleeping = λ t n. omega arith }

abbrev pub never_equal : MachineConfig → MachineConfig → Bool
never_equal a b = false

abbrev pub real_client : Client
real_client = record { base_url = codes "https://api"; token = codes "t"; dry_run = false }

abbrev dry_client : Client
dry_client = record { base_url = codes "https://api"; token = codes "t"; dry_run = true }

two_planned :
    (r : DeployResult) × (deploy small_world never_equal dry_client two_regions [] ≡ ([], ok r))
    × (r.machines ≡ planned two_regions)
    × (length r.ips ≡ 1)
    × (r.dry_run ≡ true)
unfolding missing
two_planned = deploy_dry small_world never_equal dry_client two_regions [] refl refl

thirty_one_rounds :
    poll_health small_world 31 real_client
      (codes "turn")
      (codes "m1")
      (elapsed [] + 300 * second)
      []
    ≡ wait_for_healthy small_world real_client (codes "turn") (codes "m1") (300 * second) []
thirty_one_rounds =
    wait_for_healthy_ends small_world small_world-Ticks 31 real_client (codes "turn") (codes "m1")
      (300 * second) [] (omega arith)

wait_for_healthy_outcome_example :
    Health.Outcome small_world real_client
      (codes "turn")
      (codes "m1")
      (elapsed [] + 300 * second)
      (wait_for_healthy small_world real_client (codes "turn") (codes "m1") (300 * second) [])
wait_for_healthy_outcome_example =
    wait_for_healthy_outcome small_world small_world-Ticks real_client (codes "turn") (codes "m1")
      (300 * second) []

wait_for_machine_outcome_example :
    Outcome small_world real_client
      (wait_path small_world escaped (codes "turn") (codes "m1") (codes "STARTED") (60 * second))
      (codes "m1")
      (codes "STARTED")
      (elapsed [] + 60 * second)
      (wait_for_machine small_world escaped real_client
        (codes "turn")
        (codes "m1")
        (codes "STARTED")
        (60 * second)
        [])
wait_for_machine_outcome_example =
    wait_for_machine_outcome small_world escaped small_world-Ticks real_client (codes "turn")
      (codes "m1") (codes "STARTED") (60 * second) [] refl

-- What the list of machines leaves in the trace.
abbrev listed : Trace
listed = sent (request_of real_client method_get (machines_path (codes "turn")) no_body) ∷ []

machines_listed :
    list_machines small_world real_client (codes "turn") [] ≡ (listed, ok two_machines)
unfolding list_machines read_reply do_request
machines_listed = refl

abbrev pub app : App
app = record {
  id = [];
  name = codes "turn";
  org_slug = [];
  status = [];
  network = [];
  organization = record { name = []; slug = [] };
}

ord_removed :
    Adds
      (Allowed real_client two_regions two_machines)
      listed
      (converge small_world never_equal real_client two_regions app [] []).0
ord_removed =
    converge_removes small_world never_equal real_client two_regions two_machines app [] [] listed
      machines_listed

abbrev pub trimmed_regions : DeployConfig
trimmed_regions = record two_regions { regions = codes "iad" ∷ codes "ord" ∷ [] }

abbrev pub always_equal : MachineConfig → MachineConfig → Bool
always_equal a b = true
