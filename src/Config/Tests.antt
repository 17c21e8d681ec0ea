-- ===== src/Config/Tests.antt =====
-- A configuration from the environment.
use turnfly.Prelude.{◌≡◌, ◌↔◌, refl, [], ◌∷◌, if◌then◌else◌}
use turnfly.Text.{Bytes, codes, beq}
use turnfly.Config.{
  default_config, load_from_env, validate, realm_required, secret_required, token_required,
}
use turnfly.Config.Loading.{load_from_env_again}
use turnfly.Config.Validation.{IsValid, validate_iff}

default_errors : validate default_config ≡ realm_required ∷ secret_required ∷ token_required ∷ []
unfolding validate default_config beq
default_errors = refl

abbrev environment : Bytes → Bytes
environment name = if beq name (codes "TURN_PORT") then codes "5000" else []

environment_twice :
    load_from_env environment (load_from_env environment default_config)
    ≡ load_from_env environment default_config
environment_twice = load_from_env_again environment default_config

validate_iff_example : (validate default_config ≡ []) ↔ IsValid default_config
validate_iff_example = validate_iff default_config
