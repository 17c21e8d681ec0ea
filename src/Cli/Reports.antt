-- ===== src/Cli/Reports.antt =====
-- cmd/turnfly/main.go: the lines that `autodeploy` and `deploy` print of a result.
use turnfly.Prelude.{List, [], ◌∷◌, ◌++◌, map, length}
use turnfly.Int.{pos}
use turnfly.Text.{Bytes, codes}
use turnfly.Text.Decimal.{format_int}
use turnfly.FlyDeploy.Types.{Machine, IpAddress}
use turnfly.FlyDeploy.Plan.{DeployResult}

-- `strings.Join(items, ", ")`
pub join_commas : List Bytes → Bytes
join_commas [] = []
join_commas (s ∷ []) = s
join_commas (s ∷ t ∷ ss) = s ++ codes ", " ++ join_commas (t ∷ ss)

pub ip_line : IpAddress → Bytes
ip_line ip = codes "IP: " ++ ip.address ++ codes " (" ++ ip.kind ++ codes ")"

-- The dash is three bytes.
pub machine_line : Machine → Bytes
machine_line m =
    codes "  "
    ++ m.name
    ++ codes " ("
    ++ m.region
    ++ codes ") "
    ++ (226 ∷ 128 ∷ 148 ∷ codes " ")
    ++ m.state

abbrev regions_line : DeployResult → Bytes
regions_line r = codes "Regions: " ++ join_commas r.regions

abbrev machines_line : DeployResult → Bytes
machines_line r = codes "Machines: " ++ format_int (pos (length r.machines))

pub autodeploy_report : DeployResult → Bytes → List Bytes
unfolding join_commas ip_line
autodeploy_report r image =
    []
    ∷ (codes "Autodeploy complete. App: " ++ r.app.name)
    ∷ (codes "Image: " ++ image)
    ∷ regions_line r
    ∷ machines_line r
    ∷ map ip_line r.ips

pub deploy_report : DeployResult → List Bytes
unfolding join_commas ip_line machine_line
deploy_report r =
    []
    ∷ (codes "Deploy complete. App: " ++ r.app.name)
    ∷ regions_line r
    ∷ machines_line r
    ∷ (map machine_line r.machines ++ map ip_line r.ips)
