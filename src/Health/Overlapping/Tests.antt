-- ===== src/Health/Overlapping/Tests.antt =====
-- Two requests to GET /healthz at once, between whose runs the server comes up.
use turnfly.Prelude.{◌≡◌, refl, Bool, true, false, if◌then◌else◌, List, [], ◌∷◌, ◌++◌}
use turnfly.Text.{codes}
use turnfly.Map
use turnfly.Map.{Map}
use turnfly.Health.{
  Service, Checker, healthy, unhealthy, new_service, register, run_checks, healthz,
}
use turnfly.Health.Checks.{worst}
use turnfly.Health.Overlapping.{
  Action, runs, answers, Serving, perform_all, last_run, no_run, reply, perform_all_lem,
}

abbrev server_up : Checker Bool
server_up up = if up then (healthy, codes "ok") else (unhealthy, codes "down")

abbrev one_check : Service Bool
unfolding new_service register
one_check = register new_service (codes "turn") server_up

abbrev started : Serving Bool
started = record { service = one_check; details = λ _. Map.empty; answered = [] }

-- Request 2 runs the checks, on a server that is up, between the run of request 1 and its answer.
abbrev other_run : List (Action Bool)
other_run = runs 2 true ∷ []

no_run_of_1 : no_run 1 other_run ≡ true
unfolding no_run
no_run_of_1 = refl

perform_all_lem_example :
    let details = (run_checks false started.service).1 in
    ((perform_all started ([] ++ (runs 1 false ∷ (other_run ++ (answers 1 ∷ []))))).answered
      ≡ (1, reply (worst (last_run false other_run) started.service.checks.entries) details)
        ∷ (perform_all started ([] ++ (runs 1 false ∷ other_run))).answered)
    × ((healthz false (codes "GET") started.service).1
        ≡ reply (worst false started.service.checks.entries) details)
perform_all_lem_example = perform_all_lem 1 false started [] other_run no_run_of_1

-- The checks reported a bad status to request 1, which is answered with 200.
masked : (reply (worst (last_run false other_run) one_check.checks.entries) Map.empty).code ≡ 200
unfolding last_run new_service register Map.put Map.empty
masked = refl
