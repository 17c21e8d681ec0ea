-- ===== src/Cli/IceConfig.antt =====
-- cmd/turnfly/main.go: `ice-config`.
pub mod Accepted
mod Tests
use turnfly.Prelude.{◌*◌, Bool, none, some, List, [], ◌∷◌, if◌then◌else◌}
use turnfly.Int.{ℤ, pos}
use turnfly.Text.{Bytes, codes, is_empty}
use turnfly.Text.Strings.{trim_space, split_first}
use turnfly.Result.{Result, ok, err, ◌>>=◌}
use turnfly.Clock.{hour}
use turnfly.Map
use turnfly.Config.{Config, split_commas}
use turnfly.Regions.{Store, IceConfig, new_store, set, generate_ice_config}
use turnfly.Regions.WellKnown.{well_known_regions}
use turnfly.Auth.{generate_credentials}
use turnfly.Cli.{CliError, required, invalid_region}

-- The loop over the items of `--regions`, each a code and a host with a colon between.
pub add_regions : Store → List Bytes → Result CliError Store
add_regions store [] = ok store
add_regions store (item ∷ items) =
    if is_empty (trim_space item)
    then add_regions store items
    else elim (split_first b':' (trim_space item)) [
      | none ↦ err (invalid_region (trim_space item))
      | some (code, host) ↦
          add_regions
            (set store (record {
              code = code;
              name = elim (Map.get well_known_regions code) [ none ↦ [] | some name ↦ name ];
              host = host;
              port = pos 3478;
              tls_port = pos 5349;
            }))
            items
    ]

-- `hmac_sha1` is that of package auth; `now` is the wall time.
module _ (hmac_sha1 : Bytes → Bytes → Bytes) where
  -- `generateIceConfigFromRegions`, up to the printing.
  pub generate_ice_config_from_regions :
      Bytes → Bytes → Bytes → Bool → ℤ → Result CliError IceConfig
  unfolding add_regions
  generate_ice_config_from_regions regions user_id secret use_tls now = do
    store ← add_regions new_store (split_commas regions)
    let issued = generate_credentials hmac_sha1 secret user_id (pos (24 * hour)) now
    ok (generate_ice_config store issued.0 issued.1 use_tls)

  -- `generateIceConfigFromLocal`, up to the printing: one server with a fixed address.
  pub generate_ice_config_from_local : Bytes → Bytes → ℤ → IceConfig
  generate_ice_config_from_local user_id secret now =
      let (username, password) =
        generate_credentials hmac_sha1 secret user_id (pos (24 * hour)) now in
      record {
        ice_servers =
            record {
              urls = codes "turn:turn.example.com:3478?transport=udp" ∷ [];
              username = username;
              credential = password;
            }
            ∷ [];
      }

  -- The command, on the loaded configuration, with its flags `--regions`, `--user-id`,
  -- `--shared-secret` and `--tls`.
  pub ice_config_command : Config → Bytes → Bytes → Bytes → Bool → ℤ → Result CliError IceConfig
  ice_config_command cfg regions user_id secret_flag use_tls now =
      let secret = if is_empty secret_flag then cfg.turn_shared_secret else secret_flag in
      if is_empty secret
      then err (required (codes "TURN_SHARED_SECRET"))
      else if is_empty regions
      then ok (generate_ice_config_from_local user_id secret now)
      else generate_ice_config_from_regions regions user_id secret use_tls now
