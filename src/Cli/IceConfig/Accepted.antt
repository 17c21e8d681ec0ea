-- ===== src/Cli/IceConfig/Accepted.antt =====
-- The credentials that `ice-config` issues, and its errors.
use turnfly.Prelude.{
  ◌*◌, ◌≡◌, refl, Bool, true, false, ◌⊎◌, inl, inr, Option, none, some, Option-cases, Bool-cases,
  List, [], ◌∷◌, map, All, if◌then◌else◌,
}
use turnfly.Int.{ℤ, pos, ◌+ℤ◌, ltb_ℤ, IsInt64}
use turnfly.Text.{Bytes, codes, is_empty}
use turnfly.Text.Strings.{trim_space, split_first}
use turnfly.Result.{Result, ok, err}
use turnfly.Clock.{hour}
use turnfly.Map
use turnfly.Config.{Config, split_commas}
use turnfly.Regions.{
  Region, Store, IceServer, IceConfig, new_store, ice_server, generate_ice_config,
}
use turnfly.Auth.{unix, generate_credentials, validate_credentials}
use turnfly.Auth.Validity.{generated_credentials}
use turnfly.Cli.{CliError, required, invalid_region}
use turnfly.Cli.IceConfig.{
  add_regions, generate_ice_config_from_regions, generate_ice_config_from_local, ice_config_command,
}

-- The first item, without the space around it, that is not blank and has no colon.
unfoldable pub first_hostless : List Bytes → Option Bytes
first_hostless [] = none
first_hostless (item ∷ items) =
    if is_empty (trim_space item)
    then first_hostless items
    else elim (split_first b':' (trim_space item)) [
      | none ↦ some (trim_space item)
      | some (code, host) ↦ first_hostless items
    ]

-- What `add_regions` makes of items of which `o` is the first without a host.
abbrev Adds : Result CliError Store → Option Bytes → Type 0
Adds r none = (store : Store) × (r ≡ ok store)
Adds r (some bad) = r ≡ err (invalid_region bad)

add_regions-Adds :
    (items : List Bytes) (store : Store) → Adds (add_regions store items) (first_hostless items)
unfolding add_regions first_hostless
add_regions-Adds [] store = (store, refl)
add_regions-Adds (item ∷ items) store = elim (Bool-cases (is_empty (trim_space item))) [
  | inl e ↦ rw (e, add_regions, first_hostless) (add_regions-Adds items store)
  | inr e ↦ elim (Option-cases (split_first b':' (trim_space item))) [
    | inl f ↦ rw (e, f, add_regions, first_hostless) refl
    | inr ((code, host), f) ↦ rw (e, f, add_regions, first_hostless) (add_regions-Adds items _)
  ]
]

module _ (hmac_sha1 : Bytes → Bytes → Bytes) (user_id secret : Bytes) (now : ℤ) where
  -- A server of the configuration whose credentials the secret validates for the user for 24
  -- hours, and not beyond.
  abbrev pub IsAccepted : IceServer → Type 0
  IsAccepted server =
      (later : ℤ)
      → validate_credentials hmac_sha1 server.username server.credential secret later
        ≡ (if ltb_ℤ (unix (now +ℤ pos (24 * hour))) (unix later) then none else some user_id)

  module _ (named : is_empty user_id ≡ false) (fits : IsInt64 (unix (now +ℤ pos (24 * hour)))) where
    issued_servers :
        (use_tls : Bool) (rs : List Region)
        → let issued = generate_credentials hmac_sha1 secret user_id (pos (24 * hour)) now in
          All IsAccepted (map (ice_server issued.0 issued.1 use_tls) rs)
    unfolding ice_server
    issued_servers use_tls [] = tt
    issued_servers use_tls (r ∷ rs) = (
      λ later.
          generated_credentials hmac_sha1 secret user_id (pos (24 * hour)) now later named fits,
      issued_servers use_tls rs,
    )

    local-IsAccepted :
        All IsAccepted (generate_ice_config_from_local hmac_sha1 user_id secret now).ice_servers
    unfolding generate_ice_config_from_local
    local-IsAccepted = (
      λ later.
          generated_credentials hmac_sha1 secret user_id (pos (24 * hour)) now later named fits,
      tt,
    )

    -- What the regions give.
    abbrev FromRegions : Result CliError IceConfig → Option Bytes → Type 0
    FromRegions r none = (config : IceConfig) × (r ≡ ok config) × All IsAccepted config.ice_servers
    FromRegions r (some bad) = r ≡ err (invalid_region bad)

    regions-FromRegions :
        (regions : Bytes) (use_tls : Bool)
        → FromRegions
            (generate_ice_config_from_regions hmac_sha1 regions user_id secret use_tls now)
            (first_hostless (split_commas regions))
    unfolding generate_ice_config_from_regions generate_ice_config
    regions-FromRegions regions use_tls =
        by_first (first_hostless (split_commas regions))
          (add_regions-Adds (split_commas regions) new_store)
      where
        by_first :
            (o : Option Bytes)
            → Adds (add_regions new_store (split_commas regions)) o
            → FromRegions
                (generate_ice_config_from_regions hmac_sha1 regions user_id secret use_tls now)
                o
        by_first none (store, e) =
            rw (e, generate_ice_config_from_regions)
              (_, refl, issued_servers use_tls (Map.values store.regions))
        by_first (some bad) e = rw (e, generate_ice_config_from_regions) refl

-- The secret of the command: the flag, or else that of the environment.
abbrev pub secret_of : Config → Bytes → Bytes
secret_of cfg secret_flag = if is_empty secret_flag then cfg.turn_shared_secret else secret_flag

-- How the command ends.
pub data Outcome (hmac_sha1 : Bytes → Bytes → Bytes) (user_id secret : Bytes) (now : ℤ)
    (regions : Bytes) : Result CliError IceConfig → Type 0 where
  no_secret :
      is_empty secret ≡ true
      → Outcome hmac_sha1 user_id secret now regions (err (required (codes "TURN_SHARED_SECRET")))
  hostless :
      (bad : Bytes)
      → is_empty secret ≡ false
      → first_hostless (split_commas regions) ≡ some bad
      → Outcome hmac_sha1 user_id secret now regions (err (invalid_region bad))
  issued :
      (config : IceConfig)
      → is_empty secret ≡ false
      → (is_empty regions ≡ true) ⊎ (first_hostless (split_commas regions) ≡ none)
      → All (IsAccepted hmac_sha1 user_id secret now) config.ice_servers
      → Outcome hmac_sha1 user_id secret now regions (ok config)

module _ (hmac_sha1 : Bytes → Bytes → Bytes) (user_id : Bytes) (now : ℤ)
    (named : is_empty user_id ≡ false) (fits : IsInt64 (unix (now +ℤ pos (24 * hour)))) where
  regions-Outcome :
      (secret regions : Bytes) (use_tls : Bool)
      → is_empty secret ≡ false
      → Outcome hmac_sha1 user_id secret now regions
          (generate_ice_config_from_regions hmac_sha1 regions user_id secret use_tls now)
  regions-Outcome secret regions use_tls given =
      by_first (first_hostless (split_commas regions)) refl
        (regions-FromRegions hmac_sha1 user_id secret now named fits regions use_tls)
    where
      by_first :
          (o : Option Bytes)
          → first_hostless (split_commas regions) ≡ o
          → FromRegions hmac_sha1 user_id secret now named fits
              (generate_ice_config_from_regions hmac_sha1 regions user_id secret use_tls now)
              o
          → Outcome hmac_sha1 user_id secret now regions
              (generate_ice_config_from_regions hmac_sha1 regions user_id secret use_tls now)
      by_first none f (config, e, accepted) = rw e (issued config given (inr f) accepted)
      by_first (some bad) f e = rw e (hostless bad given f)

  -- For a user whose ID is not empty, with an expiry within int64, ice-config fails without a
  -- secret, or with the first item of --regions that is not blank and has no colon; else it
  -- succeeds, and the secret validates the credentials of each of its servers for this user until
  -- 24 hours have passed, and not beyond.
  pub ice_config_command_lem :
      (cfg : Config) (regions secret_flag : Bytes) (use_tls : Bool)
      → Outcome hmac_sha1 user_id
          (secret_of cfg secret_flag)
          now
          regions
          (ice_config_command hmac_sha1 cfg regions user_id secret_flag use_tls now)
  unfolding ice_config_command
  ice_config_command_lem cfg regions secret_flag use_tls =
      let secret = secret_of cfg secret_flag in
      elim (Bool-cases (is_empty secret)) [
        | inl e ↦ rw (e, ice_config_command) (no_secret e)
        | inr e ↦ elim (Bool-cases (is_empty regions)) [
          | inl f ↦
              rw (e, f, ice_config_command)
                (issued (generate_ice_config_from_local hmac_sha1 user_id secret now) e (inl f)
                  (local-IsAccepted hmac_sha1 user_id secret now named fits))
          | inr f ↦ rw (e, f, ice_config_command) (regions-Outcome secret regions use_tls e)
        ]
      ]
