-- ===== src/FlyDeploy/Ensured/Tests.antt =====
-- A deployment that allocates an address, updates a machine, destroys one and creates one.
use turnfly.Prelude.{◌≡◌, refl, true, false, none, some, [], ◌∷◌, ltb, length}
use turnfly.Result.{ok}
use turnfly.Text
use turnfly.Text.{codes}
use turnfly.Text.Strings
use turnfly.Map
use turnfly.FlyDeploy.Types
use turnfly.FlyDeploy.Types.{IpAddress}
use turnfly.FlyDeploy.Transport.{Trace, World, read_reply, do_request}
use turnfly.FlyDeploy.Client.{
  get_app, list_ips, allocate_ip, create_machine, update_machine, list_machines,
}
use turnfly.FlyDeploy.Plan.{DeployConfig, DeployResult, by_region, missing, with_defaults}
use turnfly.FlyDeploy.Deployer.{converge, deploy}
use turnfly.FlyDeploy.Deployer
use turnfly.FlyDeploy.Removing.{Removes, deploy-Removes}
use turnfly.FlyDeploy.Ensured.Deployment.{Deployed, deploy_lem}
use turnfly.FlyDeploy.Tests.{two_regions, machine_of, small_world, never_equal, real_client, app}

-- One of the two machines that the API lists is in these regions.
abbrev other_regions : DeployConfig
other_regions = record two_regions { regions = codes "iad" ∷ codes " fra" ∷ [] }

abbrev address : IpAddress
address = record {
  id = [];
  address = codes "1.2.3.4";
  kind = codes "v4";
  region = [];
  created_at = [];
}

-- The app is there, without an address.
abbrev world_of_app : World
world_of_app = record small_world {
  decode_app = λ b. some app;
  decode_ip = λ b. some address;
  decode_ips = λ b. some [];
}

abbrev deployed : DeployResult
deployed = record {
  app = app;
  machines = machine_of (codes "m1") (codes "iad") ∷ machine_of (codes "m1") (codes "iad") ∷ [];
  ips = address ∷ [];
  dry_run = false;
  regions = other_regions.regions;
}

abbrev after_all : Trace
after_all = (deploy world_of_app never_equal real_client other_regions []).0

succeeds : deploy world_of_app never_equal real_client other_regions [] ≡ (after_all, ok deployed)
unfolding deploy missing with_defaults Deployer.ensure_app Deployer.ensure_ips get_app list_ips
    allocate_ip Types.effective_org_slug converge list_machines read_reply do_request by_region
    Map.empty Map.put Map.get Text.beq Strings.trim_space Strings.trim_left Strings.trim_right
    Strings.equal_fold Deployer.ensure_machines Deployer.ensure_machine Deployer.converge_machine
    create_machine update_machine
succeeds = refl

deploy_lem_example :
    (missing other_regions ≡ none)
    × (ltb 0 (length deployed.ips) ≡ true)
    × Deployed world_of_app never_equal real_client
        (with_defaults other_regions)
        []
        after_all
        deployed
deploy_lem_example =
    deploy_lem world_of_app never_equal real_client other_regions [] after_all deployed refl
      succeeds

deploy-Removes_example :
    Removes world_of_app never_equal real_client (with_defaults other_regions) [] after_all
deploy-Removes_example = deploy-Removes world_of_app never_equal real_client other_regions []
