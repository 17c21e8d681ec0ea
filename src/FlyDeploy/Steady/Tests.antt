-- ===== src/FlyDeploy/Steady/Tests.antt =====
-- An app with an address and with a machine in each of its two regions.
use turnfly.Prelude.{All, ◌≡◌, refl, true, none, some, [], ◌∷◌}
use turnfly.Result.{ok}
use turnfly.Text.{beq, codes}
use turnfly.Text.Strings
use turnfly.Text.Strings.{trim_space, equal_fold}
use turnfly.Map
use turnfly.FlyDeploy.Types.{IpAddress}
use turnfly.FlyDeploy.Transport.{
  Trace, World, sent, method_get, request_of, app_path, ips_path, machines_path, no_body,
  read_reply, do_request,
}
use turnfly.FlyDeploy.Client.{get_app, list_ips, list_machines}
use turnfly.FlyDeploy.Plan.{by_region, missing, with_defaults}
use turnfly.FlyDeploy.Deployer.{deploy}
use turnfly.FlyDeploy.Effects.{Adds}
use turnfly.FlyDeploy.Wanted.{contains}
use turnfly.FlyDeploy.Steady.{ReadOnly, Settled}
use turnfly.FlyDeploy.Steady.Deployment.{deploy_steady}
use turnfly.FlyDeploy.Tests.{
  trimmed_regions, always_equal, two_machines, machine_of, small_world, real_client, app,
}

abbrev address : IpAddress
address = record {
  id = [];
  address = codes "1.2.3.4";
  kind = codes "v4";
  region = [];
  created_at = [];
}

abbrev settled_world : World
settled_world = record small_world {
  decode_app = λ b. some app;
  decode_ips = λ b. some (address ∷ []);
}

abbrev asked_app : Trace
asked_app = sent (request_of real_client method_get (app_path (codes "turn")) no_body) ∷ []

abbrev asked_ips : Trace
asked_ips = sent (request_of real_client method_get (ips_path (codes "turn")) no_body) ∷ asked_app

abbrev asked_machines : Trace
asked_machines =
    sent (request_of real_client method_get (machines_path (codes "turn")) no_body) ∷ asked_ips

complete : missing trimmed_regions ≡ none
unfolding missing
complete = refl

app_found : get_app settled_world real_client (codes "turn") [] ≡ (asked_app, ok app)
unfolding get_app read_reply do_request
app_found = refl

ip_found :
    list_ips settled_world real_client (codes "turn") asked_app ≡ (asked_ips, ok (address ∷ []))
unfolding list_ips read_reply do_request
ip_found = refl

listed :
    list_machines settled_world real_client (codes "turn") asked_ips
    ≡ (asked_machines, ok two_machines)
unfolding list_machines read_reply do_request
listed = refl

settled :
    All
      (Settled always_equal (with_defaults trimmed_regions) (by_region Map.empty two_machines))
      trimmed_regions.regions
unfolding by_region Map.empty Map.put Map.get trim_space Strings.trim_left Strings.trim_right
    equal_fold beq
settled = (
  record {
    machine = machine_of (codes "m1") (codes "iad");
    found = refl;
    configured = refl;
    running = refl;
  },
  (
    record {
      machine = machine_of (codes "m2") (codes "ord");
      found = refl;
      configured = refl;
      running = refl;
    },
    tt,
  ),
)

named : All (λ m. contains m.region trimmed_regions.regions ≡ true) two_machines
unfolding beq
named = (refl, (refl, tt))

deploy_steady_example :
    Adds ReadOnly [] (deploy settled_world always_equal real_client trimmed_regions []).0
unfolding with_defaults
deploy_steady_example =
    deploy_steady settled_world always_equal real_client trimmed_regions app address [] two_machines
      [] asked_app asked_ips asked_machines complete app_found ip_found listed named settled
