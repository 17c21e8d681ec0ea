-- ===== src/Health/Tests.antt =====
-- The health service with two checks.
use turnfly.Prelude.{◌≡◌, refl, ◌↔◌, ◌⊎◌, none, some, Bool, false, if◌then◌else◌}
use turnfly.Text.{Bytes, codes}
use turnfly.Map
use turnfly.Map.{Map}
use turnfly.Map.Laws.{empty-IsMap, put-IsMap}
use turnfly.Health
use turnfly.Health.{
  Service, Checker, healthy, unhealthy, is_unhealthy, new_service, register, healthz, readyz,
  get_status,
}
use turnfly.Health.Checks.{Reports, healthz_lem}

-- A check of a server that is up or down.
abbrev server_check : Checker Bool
server_check up = if up then (healthy, codes "ok") else (unhealthy, codes "down")

abbrev api_check : Checker Bool
api_check up = (healthy, codes "ready")

abbrev two_checks : Service Bool
unfolding new_service register
two_checks = register (register new_service (codes "turn") server_check) (codes "api") api_check

healthz_down : (healthz false (codes "GET") two_checks).1.code ≡ 503
unfolding healthz Health.run_checks Health.check_loop Health.get_status turnfly.Text.beq new_service
    register Map.put Map.empty
healthz_down = refl

healthz_lem_example :
    let (after, answer) = healthz false (codes "GET") two_checks in
    ((answer.code ≡ 503) ↔ Reports false is_unhealthy two_checks.checks)
    × ((answer.code ≡ 200) ⊎ (answer.code ≡ 503))
    × ((results : Map Bytes) × (answer.body ≡ some (get_status after, results))
        × ((name : Bytes)
            → Map.get results name
              ≡ elim (Map.get two_checks.checks name) [ none ↦ none | some c ↦ some (c false).1 ]))
    × (readyz (codes "GET") after ≡ (answer.code, some (get_status after)))
unfolding new_service register
healthz_lem_example = healthz_lem false two_checks (
    put-IsMap (Map.put Map.empty (codes "turn") server_check) (codes "api") api_check
      (put-IsMap Map.empty (codes "turn") server_check empty-IsMap))
