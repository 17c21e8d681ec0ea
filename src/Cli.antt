-- ===== src/Cli.antt =====
-- cmd/turnfly/main.go: the values of the command line flags, and the texts that the commands make.
pub mod Flags
pub mod RegionList
pub mod ServeTurn
pub mod ServeRelay
pub mod Planning
pub mod Deploying
pub mod IceConfig
pub mod Probe
pub mod Defaults
pub mod Reports
pub mod Tests
use turnfly.Prelude.{
  true, false, Option, none, some, List, [], ◌∷◌, ◌++◌, ◌==◌, length, if◌then◌else◌,
}
use turnfly.Text.{Bytes, codes, is_empty}
use turnfly.Text.Strings.{trim_space, split_first}
use turnfly.Result.{Result, ok, err}
use turnfly.Map
use turnfly.Map.{Map}
use turnfly.Config.{ConfigError, split_commas}
use turnfly.FlyDeploy.Types.{FlyError}
use turnfly.ContainerImage.{PublishError}
use turnfly.Auth.Base64.{encode_raw_url}

-- What a command returns in place of nil. `required` names a flag or a variable that is not set.
pub data CliError : Type 0 where
  required : Bytes → CliError
  invalid_env : Bytes → CliError
  invalid_region : Bytes → CliError
  invalid_configuration : List ConfigError → CliError
  no_randomness : Bytes → CliError
  ensure_app_failed : FlyError → CliError
  no_publisher : PublishError → CliError
  publish_failed : PublishError → CliError
  deploy_failed : FlyError → CliError
  destroy_failed : FlyError → CliError

-- The loop of `parseRegionList`.
pub clean_regions : List Bytes → List Bytes
clean_regions [] = []
clean_regions (r ∷ rs) =
    let rest = clean_regions rs in if is_empty (trim_space r) then rest else trim_space r ∷ rest

-- `parseRegionList`
pub parse_region_list : Bytes → Result CliError (List Bytes)
unfolding clean_regions
parse_region_list flag =
    let regions = clean_regions (split_commas flag) in
    if length regions == 0 then err (required (codes "--regions")) else ok regions

-- The key and the value of an `--env` flag.
pub parse_assignment : Bytes → Option (Bytes × Bytes)
unfolding split_first
parse_assignment e = elim (split_first b'=' e) [
  | none ↦ none
  | some (k, v) ↦ if is_empty k then none else some (k, v)
]

-- The loop of `parseEnvFlags`.
pub add_env_flags : Map Bytes → List Bytes → Result CliError (Map Bytes)
add_env_flags env [] = ok env
add_env_flags env (e ∷ es) = elim (parse_assignment e) [
  | none ↦ err (invalid_env e)
  | some (k, v) ↦ add_env_flags (Map.put env k v) es
]

-- `parseEnvFlags`
pub parse_env_flags : List Bytes → Result CliError (Map Bytes)
unfolding add_env_flags
parse_env_flags flags = add_env_flags Map.empty flags

-- `generateSecret` of the bytes that `rand.Read` filled in, or of its error.
pub generate_secret : Result Bytes Bytes → Result CliError Bytes
generate_secret (ok data_bytes) = ok (encode_raw_url data_bytes)
generate_secret (err message) = err (no_randomness message)

-- `fmt.Sprintf("registry.fly.io/%s:%s", app, tag)`
pub registry_image : Bytes → Bytes → Bytes
registry_image app tag = codes "registry.fly.io/" ++ (app ++ (58 ∷ tag))
