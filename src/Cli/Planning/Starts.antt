-- ===== src/Cli/Planning/Starts.antt =====
-- The machines of `autodeploy` start: its environment is a configuration of `serve-turn`.
use turnfly.Prelude.{List, map, ◌≡◌, refl, sym, ap, ◌∙◌, false, some, [], ◌∷◌, ◌++◌, if◌then◌else◌}
use turnfly.Int.{ℤ, pos, eq_ℤ}
use turnfly.Text.{Bytes, codes, is_empty}
use turnfly.Text.Decimal.{format_int}
use turnfly.Result.{Result, ok}
use turnfly.Map
use turnfly.Map.{Map}
use turnfly.Config.{Config}
use turnfly.FlyDeploy.Plan.{DeployConfig, with_defaults, desired_config}
use turnfly.FlyDeploy.Types.{MachineService}
use turnfly.Cli.Planning.{or_else, or_generate, DeployFlags, plan_autodeploy, autodeploy_env}
use turnfly.Cli.Planning.Environment.{
  planned_realm, Planned, plan_autodeploy-Planned, or_generate-not_empty, or_else-not_empty,
  append-not_empty,
}
use turnfly.Cli.ServeTurn.{Services, serve_config, serve_turn, run_serve_turn}
use turnfly.Cli.Planning.Machine.{
  Reads, machine_env, no_flags, IsUnset, given_value, machine_env-some, machine_env-none, env-realm,
  env-secret, env-token, env-turn_port, env-http_port, env-log_level, started-realm, started-secret,
  started-token, started-turn_port, started-http_port, started-serve_turn,
}

-- What `rand.Read` gives for a secret is not empty.
abbrev pub IsFilled : Result Bytes Bytes → Type 0
IsFilled draw = (b : Bytes) → draw ≡ ok b → is_empty b ≡ false

-- A service of a machine: its protocol, the port of the machine and the public ports.
abbrev pub target : MachineService → Bytes × ℤ × List ℤ
target s = (s.protocol, s.internal_port, map (λ p. p.port) s.ports)

-- A machine with the environment of the plan serves: at the ports that the services of its
-- configuration forward to, for the realm, the secret and the token of the flags, the settings or
-- the draws.
pub record Starts (cfg : Config) (flags : DeployFlags) (draw_secret draw_token : Result Bytes Bytes)
    (plan : DeployConfig) (platform : Bytes → Bytes) : Type 0 where
  pub env : Map Bytes
  pub services : Services
  pub in_plan : plan.env ≡ some env
  pub serves : serve_turn (machine_env env platform) no_flags ≡ ok services
  pub turn_port : ℤ
  pub http_port : ℤ
  pub turn_addr : services.turn.listen_addr ≡ codes "0.0.0.0:" ++ format_int turn_port
  pub http_addr : services.http_addr ≡ (b':' ∷ format_int http_port)
  pub forwarded :
      map target (desired_config (with_defaults plan)).services
      ≡ (codes "udp", turn_port, pos 3478 ∷ [])
        ∷ (codes "tcp", turn_port, pos 3478 ∷ [])
        ∷ (codes "tcp", http_port, pos 80 ∷ [])
        ∷ []
  pub realm : services.turn.realm ≡ planned_realm cfg flags
  pub secret :
      or_generate (or_else flags.shared_secret cfg.turn_shared_secret) draw_secret
      ≡ ok services.turn.shared_secret
  pub token :
      or_generate (or_else flags.admin_token cfg.admin_api_token) draw_token
      ≡ ok services.api.admin_token

health_port-zero :
    (plan : DeployConfig) → plan.health_port ≡ pos 0 → (with_defaults plan).health_port ≡ pos 8080
unfolding with_defaults
health_port-zero plan h = ap (λ n. if eq_ℤ n (pos 0) then pos 8080 else n) h

module _ {cfg : Config} {flags : DeployFlags} {timestamp : Bytes} {d e : Result Bytes Bytes}
    {plan : DeployConfig} (platform : Bytes → Bytes) (p : Planned cfg flags timestamp d e plan)
    (fd : IsFilled d) (fe : IsFilled e) (ut : IsUnset flags.env_vars platform (codes "TURN_PORT"))
    (uh : IsUnset flags.env_vars platform (codes "HTTP_PORT"))
    (ul : IsUnset flags.env_vars platform (codes "LOG_LEVEL")) where
  abbrev vars : Map Bytes
  vars = autodeploy_env p.given (planned_realm cfg flags) p.secret p.token cfg.fly_app_name

  abbrev getenv : Bytes → Bytes
  getenv = machine_env vars platform

  getenv-unset :
      (key : Bytes)
      → Map.get vars key ≡ Map.get p.given key
      → IsUnset flags.env_vars platform key
      → getenv key ≡ []
  getenv-unset key same u =
      machine_env-none vars platform key
        (same ∙ given_value flags.env_vars p.given key p.parsed ∙ u.no_flag) u.no_platform

  reads : Reads getenv (planned_realm cfg flags) p.secret p.token
  reads = record {
    realm_is =
        machine_env-some vars platform _ _
          (env-realm p.given (planned_realm cfg flags) p.secret p.token cfg.fly_app_name);
    secret_is =
        machine_env-some vars platform _ _
          (env-secret p.given (planned_realm cfg flags) p.secret p.token cfg.fly_app_name);
    token_is =
        machine_env-some vars platform _ _
          (env-token p.given (planned_realm cfg flags) p.secret p.token cfg.fly_app_name);
    has_realm =
        or_else-not_empty (or_else flags.turn_realm cfg.turn_realm)
          (cfg.fly_app_name ++ codes ".fly.dev")
          (append-not_empty cfg.fly_app_name (codes ".fly.dev") refl);
    has_secret =
        or_generate-not_empty (or_else flags.shared_secret cfg.turn_shared_secret) p.secret d
          p.some_secret fd;
    has_token =
        or_generate-not_empty (or_else flags.admin_token cfg.admin_api_token) p.token e p.some_token
          fe;
    no_turn_port =
        getenv-unset _
          (env-turn_port p.given (planned_realm cfg flags) p.secret p.token cfg.fly_app_name) ut;
    no_http_port =
        getenv-unset _
          (env-http_port p.given (planned_realm cfg flags) p.secret p.token cfg.fly_app_name) uh;
    no_log_level =
        getenv-unset _
          (env-log_level p.given (planned_realm cfg flags) p.secret p.token cfg.fly_app_name) ul;
  }

  Planned-Starts : Starts cfg flags d e plan platform
  unfolding run_serve_turn desired_config
  Planned-Starts =
      let fixed = serve_config getenv no_flags in
      record {
        env = vars;
        services = run_serve_turn fixed (getenv (codes "FLY_REGION"));
        in_plan = p.environment;
        serves = started-serve_turn reads;
        turn_port = pos 3478;
        http_port = pos 8080;
        turn_addr = ap (λ n. codes "0.0.0.0:" ++ format_int n) (started-turn_port reads);
        http_addr = ap (λ n. b':' ∷ format_int n) (started-http_port reads);
        forwarded =
            ap
              (λ n.
                (codes "udp", pos 3478, pos 3478 ∷ [])
                ∷ (codes "tcp", pos 3478, pos 3478 ∷ [])
                ∷ (codes "tcp", n, pos 80 ∷ [])
                ∷ [])
              (health_port-zero plan p.port);
        realm = started-realm reads;
        secret = p.some_secret ∙ ap ok (sym (started-secret reads));
        token = p.some_token ∙ ap ok (sym (started-token reads));
      }

-- A machine that `autodeploy` plans starts `serve-turn`: its TURN server listens at the port to
-- which the services of the machine forward 3478, over UDP and over TCP, and its control API at the
-- one to which they forward 80; the realm, the secret and the token are those of the flags, or else
-- of the settings, or else the realm of the app and drawn ones. This holds if neither the `--env`
-- flags nor the platform set TURN_PORT, HTTP_PORT or LOG_LEVEL, and if the random bytes of a
-- generated secret are not empty; whatever the `--env` flags say of the realm, the secret and the
-- token.
pub plan_autodeploy-Starts :
    (cfg : Config) (flags : DeployFlags) (timestamp : Bytes)
    (draw_secret draw_token : Result Bytes Bytes) (plan : DeployConfig) (platform : Bytes → Bytes)
    → plan_autodeploy cfg flags timestamp draw_secret draw_token ≡ ok plan
    → IsFilled draw_secret
    → IsFilled draw_token
    → IsUnset flags.env_vars platform (codes "TURN_PORT")
    → IsUnset flags.env_vars platform (codes "HTTP_PORT")
    → IsUnset flags.env_vars platform (codes "LOG_LEVEL")
    → Starts cfg flags draw_secret draw_token plan platform
plan_autodeploy-Starts cfg flags timestamp d e plan platform h fd fe ut uh ul =
    Planned-Starts platform (plan_autodeploy-Planned cfg flags timestamp d e plan h) fd fe ut uh ul
