-- ===== src/Cli/IceConfig/Tests.antt =====
-- `ice-config` for two regions, one of them written with a space.
use turnfly.Prelude.{◌≡◌, ◌*◌, refl, true, none, some, ◌++◌, arith}
use turnfly.Int.{ℤ, pos, ◌+ℤ◌, IsInt64}
use turnfly.Text.{Bytes, codes, beq}
use turnfly.Text.Strings.{trim_space, trim_right, trim_left, split_first}
use turnfly.Clock.{second, hour}
use turnfly.Config.{default_config, split_commas}
use turnfly.Auth.{unix}
use turnfly.Cli.IceConfig.{ice_config_command}
use turnfly.Cli.IceConfig.Accepted.{Outcome, secret_of, ice_config_command_lem, first_hostless}

abbrev toy_mac : Bytes → Bytes → Bytes
toy_mac secret message = secret ++ message

abbrev start : ℤ
start = pos (1_700_000_000 * second)

expiry_fits : IsInt64 (unix (start +ℤ pos (24 * hour)))
unfolding unix ◌+ℤ◌
expiry_fits = omega arith

all_hosted : first_hostless (split_commas (codes "iad:1.2.3.4, ord:5.6.7.8,")) ≡ none
unfolding first_hostless split_commas beq trim_space trim_right trim_left split_first
all_hosted = refl

no_host : first_hostless (split_commas (codes "iad:1.2.3.4, ord")) ≡ some (codes "ord")
unfolding first_hostless split_commas beq trim_space trim_right trim_left split_first
no_host = refl

ice_config_command_lem_example :
    Outcome toy_mac
      (codes "alice")
      (secret_of default_config (codes "s"))
      start
      (codes "iad:1.2.3.4, ord:5.6.7.8,")
      (ice_config_command toy_mac default_config
        (codes "iad:1.2.3.4, ord:5.6.7.8,")
        (codes "alice")
        (codes "s")
        true
        start)
ice_config_command_lem_example =
    ice_config_command_lem toy_mac (codes "alice") start refl expiry_fits default_config
      (codes "iad:1.2.3.4, ord:5.6.7.8,") (codes "s") true
