-- ===== src/Config/Loading.antt =====
-- What the environment sets, and that reading it again changes nothing.
use turnfly.Prelude.{◌≡◌, refl, Bool, List, arith}
use turnfly.Int.{ℤ}
use turnfly.Text.{Bytes}
use turnfly.Config.{Config, env_text, env_port, env_flag, env_list, load_from_env}

env_text_again : (v old : Bytes) → env_text v (env_text v old) ≡ env_text v old
unfolding env_text
env_text_again v old = ground arith

env_port_again : (v : Bytes) (old : ℤ) → env_port v (env_port v old) ≡ env_port v old
unfolding env_port
env_port_again v old = ground arith

env_flag_again : (v : Bytes) (old : Bool) → env_flag v (env_flag v old) ≡ env_flag v old
unfolding env_flag
env_flag_again v old = ground arith

env_list_again : (v : Bytes) (old : List Bytes) → env_list v (env_list v old) ≡ env_list v old
unfolding env_list
env_list_again v old = ground arith

-- Reading the environment twice is reading it once.
pub load_from_env_again :
    (getenv : Bytes → Bytes) (c : Config)
    → load_from_env getenv (load_from_env getenv c) ≡ load_from_env getenv c
unfolding load_from_env
load_from_env_again getenv c =
    simp (env_text_again, env_port_again, env_flag_again, env_list_again) refl
