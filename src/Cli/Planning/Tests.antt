-- ===== src/Cli/Planning/Tests.antt =====
-- A machine of a plan starts.
use turnfly.Prelude.{refl, [], if◌then◌else◌}
use turnfly.Text.{Bytes, codes, beq}
use turnfly.Cli.Flags.{last_value}
use turnfly.Cli.Planning.{with_app_flags}
use turnfly.Cli.{parse_assignment}
use turnfly.Text.Strings.{split_first}
use turnfly.Cli.Planning.Machine.{IsUnset}
use turnfly.Cli.Planning.Starts.{IsFilled, Starts, plan_autodeploy-Starts}
use turnfly.Cli.Tests.{loaded, flags, no_draw, plan, planned}

abbrev platform : Bytes → Bytes
platform name = if beq name (codes "FLY_REGION") then codes "iad" else []

turn_port-IsUnset : IsUnset flags.env_vars platform (codes "TURN_PORT")
unfolding last_value parse_assignment split_first beq
turn_port-IsUnset = record { no_flag = refl; no_platform = refl }

http_port-IsUnset : IsUnset flags.env_vars platform (codes "HTTP_PORT")
unfolding last_value parse_assignment split_first beq
http_port-IsUnset = record { no_flag = refl; no_platform = refl }

log_level-IsUnset : IsUnset flags.env_vars platform (codes "LOG_LEVEL")
unfolding last_value parse_assignment split_first beq
log_level-IsUnset = record { no_flag = refl; no_platform = refl }

no_draw-IsFilled : IsFilled no_draw
no_draw-IsFilled b h = cc

plan_autodeploy-Starts_example :
    Starts (with_app_flags loaded [] []) flags no_draw no_draw plan platform
plan_autodeploy-Starts_example =
    plan_autodeploy-Starts (with_app_flags loaded [] []) flags (codes "20240101-000000") no_draw
      no_draw plan platform planned no_draw-IsFilled no_draw-IsFilled turn_port-IsUnset
      http_port-IsUnset log_level-IsUnset
