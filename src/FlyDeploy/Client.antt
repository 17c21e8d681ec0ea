-- ===== src/FlyDeploy/Client.antt =====
-- internal/flydeploy/client.go: one method of `Client` after the other.
use turnfly.Prelude.{none, List, [], ◌++◌, if◌then◌else◌}
use turnfly.Text.{Bytes, codes, is_empty}
use turnfly.FlyDeploy.Types.{
  App, MachineConfig, CreateMachineRequest, Machine, IpAddress, AllocateIpRequest,
}
use turnfly.FlyDeploy.Transport.{
  Call, return, ◌>>=◌, in_context, World, Client, do_request, no_body, create_app_body,
  machine_body, ip_body, method_get, method_post, method_delete, ignore_body, app_path,
  machines_path, machine_path, ips_path,
}

-- What a dry run returns in place of an answer.
abbrev pub dry_app : Bytes → Bytes → App
dry_app name org = record {
  id = [];
  name = name;
  org_slug = org;
  status = codes "dry-run";
  network = [];
  organization = record { name = []; slug = [] };
}

abbrev pub dry_machine : Bytes → CreateMachineRequest → Machine
dry_machine id req = record {
  id = id;
  name = req.name;
  region = req.region;
  state = codes "dry-run";
  config = req.config;
  image_ref = [];
}

abbrev no_config : MachineConfig
no_config = record { image = []; env = none; services = []; guest = none; metadata = none }

abbrev pub dry_ip : AllocateIpRequest → IpAddress
dry_ip req = record {
  id = [];
  address = codes "dry-run-ip";
  kind = req.kind;
  region = req.region;
  created_at = [];
}

-- `if ip.Type == "" { ip.Type = req.Type }`
abbrev fill_kind : Bytes → IpAddress → IpAddress
fill_kind kind ip = if is_empty ip.kind then record ip { kind = kind } else ip

module _ (world : World) where
  -- `(*Client).CreateApp`
  unfoldable pub create_app : Client → Bytes → Bytes → Call App
  create_app c app org =
      if c.dry_run
      then return (dry_app app org)
      else in_context (codes "create app") (
          do_request world c method_post (codes "/v1/apps")
            (create_app_body (record { app_name = app; org_slug = org; network = [] }))
            world.decode_app)

  -- `(*Client).GetApp`
  unfoldable pub get_app : Client → Bytes → Call App
  get_app c app =
      if c.dry_run
      then return (dry_app app [])
      else in_context (codes "get app")
          (do_request world c method_get (app_path app) no_body world.decode_app)

  -- `(*Client).ListApps`
  unfoldable pub list_apps : Client → Call (List App)
  list_apps c =
      if c.dry_run
      then return []
      else in_context (codes "list apps")
          (do_request world c method_get (codes "/v1/apps") no_body world.decode_apps)

  -- `(*Client).CreateMachine`
  unfoldable pub create_machine : Client → Bytes → CreateMachineRequest → Call Machine
  create_machine c app req =
      if c.dry_run
      then return (dry_machine [] req)
      else in_context (codes "create machine") (
          do_request world c method_post (machines_path app) (machine_body req)
            world.decode_machine)

  -- `(*Client).ListMachines`
  unfoldable pub list_machines : Client → Bytes → Call (List Machine)
  list_machines c app =
      if c.dry_run
      then return []
      else in_context (codes "list machines")
          (do_request world c method_get (machines_path app) no_body world.decode_machines)

  -- `(*Client).GetMachine`
  unfoldable pub get_machine : Client → Bytes → Bytes → Call Machine
  get_machine c app id =
      if c.dry_run
      then return (dry_machine id (record { name = []; region = []; config = no_config }))
      else in_context (codes "get machine")
          (do_request world c method_get (machine_path app id) no_body world.decode_machine)

  -- `(*Client).UpdateMachine`
  unfoldable pub update_machine : Client → Bytes → Bytes → CreateMachineRequest → Call Machine
  update_machine c app id req =
      if c.dry_run
      then return (dry_machine id req)
      else in_context (codes "update machine") (
          do_request world c method_post (machine_path app id) (machine_body req)
            world.decode_machine)

  -- `(*Client).StartMachine`
  unfoldable pub start_machine : Client → Bytes → Bytes → Call Unit
  start_machine c app id =
      if c.dry_run
      then return tt
      else in_context (codes "start machine") (
          do_request world c method_post (machine_path app id ++ codes "/start") no_body
            ignore_body)

  -- `(*Client).StopMachine`
  unfoldable pub stop_machine : Client → Bytes → Bytes → Call Unit
  stop_machine c app id =
      if c.dry_run
      then return tt
      else in_context (codes "stop machine") (
          do_request world c method_post (machine_path app id ++ codes "/stop") no_body ignore_body)

  -- `(*Client).DestroyMachine`
  unfoldable pub destroy_machine : Client → Bytes → Bytes → Call Unit
  destroy_machine c app id =
      if c.dry_run
      then return tt
      else in_context (codes "destroy machine")
          (do_request world c method_delete (machine_path app id) no_body ignore_body)

  -- `(*Client).AllocateIP`
  unfoldable pub allocate_ip : Client → Bytes → AllocateIpRequest → Call IpAddress
  allocate_ip c app req = if c.dry_run then return (dry_ip req) else do
    ip ←
        in_context (codes "allocate ip")
          (do_request world c method_post (ips_path app) (ip_body req) world.decode_ip)
    return (fill_kind req.kind ip)

  -- `(*Client).ListIPs`
  unfoldable pub list_ips : Client → Bytes → Call (List IpAddress)
  list_ips c app =
      if c.dry_run
      then return []
      else in_context (codes "list ips")
          (do_request world c method_get (ips_path app) no_body world.decode_ips)
