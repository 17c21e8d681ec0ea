-- ===== src/Cli/Planning/Environment.antt =====
-- What a plan of `autodeploy` is made of, and the environment of its machines.
use turnfly.Prelude.{◌≡◌, refl, false, some, [], ◌∷◌, ◌++◌, inl, inr, arith, if◌then◌else◌}
use turnfly.Int.{pos}
use turnfly.Text.{Bytes, codes, is_empty, beq}
use turnfly.Result.{Result, ok, err, Result-cases}
use turnfly.Map
use turnfly.Map.{Map}
use turnfly.Map.Laws.{get-put}
use turnfly.Auth.Base64.{encode_raw_url}
use turnfly.Config.{Config}
use turnfly.FlyDeploy.Plan.{DeployConfig}
use turnfly.Cli.{parse_region_list, parse_env_flags, generate_secret}
use turnfly.Cli.Planning.{
  DeployFlags, or_else, or_generate, deploy_config, autodeploy_env, check_settings, plan_autodeploy,
}

-- The realm that `autodeploy` gives to its machines.
abbrev pub planned_realm : Config → DeployFlags → Bytes
planned_realm cfg flags =
    or_else (or_else flags.turn_realm cfg.turn_realm) (cfg.fly_app_name ++ codes ".fly.dev")

-- What a plan is made of.
pub record Planned (cfg : Config) (flags : DeployFlags) (timestamp : Bytes)
    (draw_secret draw_token : Result Bytes Bytes) (plan : DeployConfig) : Type 0 where
  pub given : Map Bytes
  pub secret : Bytes
  pub token : Bytes
  pub parsed : parse_env_flags flags.env_vars ≡ ok given
  pub some_secret :
      or_generate (or_else flags.shared_secret cfg.turn_shared_secret) draw_secret ≡ ok secret
  pub some_token : or_generate (or_else flags.admin_token cfg.admin_api_token) draw_token ≡ ok token
  pub port : plan.health_port ≡ pos 0
  pub environment :
      plan.env ≡ some (autodeploy_env given (planned_realm cfg flags) secret token cfg.fly_app_name)

pub plan_autodeploy-Planned :
    (cfg : Config) (flags : DeployFlags) (timestamp : Bytes) (d e : Result Bytes Bytes)
    (plan : DeployConfig)
    → plan_autodeploy cfg flags timestamp d e ≡ ok plan
    → Planned cfg flags timestamp d e plan
unfolding plan_autodeploy deploy_config
plan_autodeploy-Planned cfg flags timestamp d e plan h = elim (Result-cases (check_settings cfg)) [
  | inl (x, a) ↦ absurd (ground (arith, h, a))
  | inr (u, a) ↦ elim (Result-cases (parse_region_list flags.regions)) [
    | inl (x, b) ↦ absurd (ground (arith, h, a, b))
    | inr (rs, b) ↦ elim (Result-cases (parse_env_flags flags.env_vars)) [
      | inl (x, c) ↦ absurd (ground (arith, h, a, b, c))
      | inr (given, c) ↦
          elim (Result-cases (or_generate (or_else flags.shared_secret cfg.turn_shared_secret) d)) [
            | inl (x, f) ↦ absurd (ground (arith, h, a, b, c, f))
            | inr (secret, f) ↦
                elim (Result-cases
                  (or_generate (or_else flags.admin_token cfg.admin_api_token) e)) [
                    | inl (x, g) ↦ absurd (ground (arith, h, a, b, c, f, g))
                    | inr (token, g) ↦ record {
                      given = given;
                      secret = secret;
                      token = token;
                      parsed = c;
                      some_secret = f;
                      some_token = g;
                      port = ground (arith, h, a, b, c, f, g);
                      environment = ground (arith, h, a, b, c, f, g);
                    }
                  ]
          ]
    ]
  ]
]

-- A text of at least one byte.
encode-not_empty : (s : Bytes) → is_empty s ≡ false → is_empty (encode_raw_url s) ≡ false
unfolding encode_raw_url
encode-not_empty [] h = h
encode-not_empty (a ∷ []) h = refl
encode-not_empty (a ∷ b ∷ []) h = refl
encode-not_empty (a ∷ b ∷ c ∷ s) h = refl

pub or_generate-not_empty :
    (s k : Bytes) (draw : Result Bytes Bytes)
    → or_generate s draw ≡ ok k
    → ((b : Bytes) → draw ≡ ok b → is_empty b ≡ false)
    → is_empty k ≡ false
unfolding generate_secret
or_generate-not_empty (c ∷ s) k draw h filled = ground (arith, h)
or_generate-not_empty [] k (err x) h filled = absurd (ground (arith, h))
or_generate-not_empty [] k (ok b) h filled = ground (arith, h, encode-not_empty b (filled b refl))

pub or_else-not_empty : (s t : Bytes) → is_empty t ≡ false → is_empty (or_else s t) ≡ false
or_else-not_empty [] t h = h
or_else-not_empty (c ∷ s) t h = refl

pub append-not_empty : (s t : Bytes) → is_empty t ≡ false → is_empty (s ++ t) ≡ false
append-not_empty [] t h = h
append-not_empty (c ∷ s) t h = refl

-- The value of a variable among those of `autodeploy`.
pub autodeploy_env-get :
    (env : Map Bytes) (realm secret token app key : Bytes)
    → Map.get (autodeploy_env env realm secret token app) key ≡ (
        if beq (codes "FLY_APP_NAME") key
        then some app
        else if beq (codes "ADMIN_API_TOKEN") key
        then some token
        else if beq (codes "TURN_SHARED_SECRET") key
        then some secret
        else if beq (codes "TURN_REALM") key
        then some realm
        else Map.get env key)
unfolding autodeploy_env
autodeploy_env-get env realm secret token app key = simp get-put refl
