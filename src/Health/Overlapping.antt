-- ===== src/Health/Overlapping.antt =====
-- internal/health/health.go: GET /healthz of several requests at once. The handler calls
-- `RunChecks`, then `GetStatus`, and each holds the lock of the status by itself, so that other
-- requests may go on between the two.
mod Tests
use turnfly.Prelude.{
  ℕ, ◌≡◌, refl, sym, ap, ap₂, ◌∙◌, Bool, true, false, not, ◌&&◌, Option, some, List, [], ◌∷◌, ◌++◌,
  ◌==◌, Bool-cases, inl, inr, arith, if◌then◌else◌,
}
use turnfly.Text.{Bytes, codes, beq}
use turnfly.Map
use turnfly.Map.{Map}
use turnfly.Health.{
  Status, healthy, check_loop, Checker, Service, Response, run_checks, get_status, status_code,
  healthz,
}
use turnfly.Health.Checks.{worst, status_lem, answer_lem}

-- What a request does, by its number: it runs the checks on a state of the program, where it
-- writes the status, and it answers, where it reads the status.
pub data Action (W : Type 0) : Type 0 where
  runs : ℕ → W → Action W
  answers : ℕ → Action W

-- The service, the messages that each request has from its run, and the answers, the latest first.
pub record Serving (W : Type 0) : Type 0 where
  pub service : Service W
  pub details : ℕ → Map Bytes
  pub answered : List (ℕ × Response)

-- The response with a status and messages.
abbrev pub reply : Status → Map Bytes → Response
reply status details = record { code = status_code status; body = some (status, details) }

module _ {W : Type 0} where
  -- The answer of the handler behind its call of `RunChecks`.
  pub answer_of : Service W → Map Bytes → Response
  answer_of s details = record {
    code = status_code (get_status s);
    body = some (get_status s, details);
  }

  pub perform : Serving W → Action W → Serving W
  unfolding answer_of
  perform s (runs i w) =
      let (service, details) = run_checks w s.service in
      record s { service = service; details = λ j. if j == i then details else s.details j }
  perform s (answers i) = record s {
    answered = (i, answer_of s.service (s.details i)) ∷ s.answered;
  }

  pub perform_all : Serving W → List (Action W) → Serving W
  unfolding perform
  perform_all s [] = s
  perform_all s (a ∷ rest) = perform_all (perform s a) rest

  -- The state of the program in the last run, or before it.
  pub last_run : W → List (Action W) → W
  last_run w [] = w
  last_run w (runs i v ∷ rest) = last_run v rest
  last_run w (answers i ∷ rest) = last_run w rest

  -- Whether none of the actions is a run of the request.
  pub no_run : ℕ → List (Action W) → Bool
  no_run i [] = true
  no_run i (runs j v ∷ rest) = not (i == j) && no_run i rest
  no_run i (answers j ∷ rest) = no_run i rest

  perform_all-append :
      (s : Serving W) (xs ys : List (Action W))
      → perform_all s (xs ++ ys) ≡ perform_all (perform_all s xs) ys
  unfolding perform_all
  perform_all-append s [] ys = refl
  perform_all-append s (x ∷ xs) ys = perform_all-append (perform s x) xs ys

  perform-checks : (s : Serving W) (a : Action W) → (perform s a).service.checks ≡ s.service.checks
  unfolding perform run_checks
  perform-checks s (runs i w) = refl
  perform-checks s (answers i) = refl

  perform_all-checks :
      (s : Serving W) (xs : List (Action W)) → (perform_all s xs).service.checks ≡ s.service.checks
  unfolding perform_all
  perform_all-checks s [] = refl
  perform_all-checks s (x ∷ xs) = perform_all-checks (perform s x) xs ∙ perform-checks s x

  -- Behind a run of the request `i` on some state, and a last run on `w`.
  record Shows (i : ℕ) (checks : Map (Checker W)) (details : Map Bytes) (w : W) (s : Serving W)
      : Type 0 where
    same_checks : s.service.checks ≡ checks
    status : get_status s.service ≡ worst w checks.entries
    kept : s.details i ≡ details

  run_checks-checks : (w : W) (s : Service W) → (run_checks w s).0.checks ≡ s.checks
  unfolding run_checks
  run_checks-checks w s = refl

  between-Shows :
      (i : ℕ) (checks : Map (Checker W)) (details : Map Bytes) (between : List (Action W)) (w : W)
      (s : Serving W)
      → Shows i checks details w s
      → no_run i between ≡ true
      → Shows i checks details (last_run w between) (perform_all s between)
  unfolding perform_all last_run no_run
  between-Shows i checks details [] w s h n = h
  between-Shows i checks details (answers j ∷ rest) w s h n =
      between-Shows i checks details rest w (perform s (answers j))
        (record { same_checks = h.same_checks; status = h.status; kept = h.kept }) n
  between-Shows i checks details (runs j v ∷ rest) w s h n =
      between-Shows i checks details rest v (perform s (runs j v))
        (record {
          same_checks = run_checks-checks v s.service ∙ h.same_checks;
          status =
              status_lem v s.service
              ∙ ap (λ (c : Map (Checker W)). worst v c.entries) h.same_checks;
          kept = ground (arith, n, h.kept);
        })
        (ground (arith, n))

  runs-Shows :
      (i : ℕ) (w : W) (s : Serving W)
      → Shows i s.service.checks (run_checks w s.service).1 w (perform s (runs i w))
  unfolding perform
  runs-Shows i w s = record {
    same_checks = run_checks-checks w s.service;
    status = status_lem w s.service;
    kept = ground arith;
  }

  details-checks :
      (w : W) (s t : Service W) → s.checks ≡ t.checks → (run_checks w s).1 ≡ (run_checks w t).1
  unfolding run_checks
  details-checks w s t e =
      ap (λ (c : Map (Checker W)). (check_loop w c.entries Map.empty healthy).0) e

  reached :
      (i : ℕ) (w : W) (s : Serving W) (before between : List (Action W))
      → perform_all s (before ++ (runs i w ∷ between))
        ≡ perform_all (perform (perform_all s before) (runs i w)) between
  unfolding perform_all
  reached i w s before between = perform_all-append s before (runs i w ∷ between)

  answers_last :
      (i : ℕ) (w : W) (s : Serving W) (before between : List (Action W))
      → perform_all s (before ++ (runs i w ∷ (between ++ (answers i ∷ []))))
        ≡ perform (perform_all s (before ++ (runs i w ∷ between))) (answers i)
  unfolding perform_all
  answers_last i w s before between =
      reached i w s before (between ++ (answers i ∷ []))
      ∙ perform_all-append (perform (perform_all s before) (runs i w)) between (answers i ∷ [])
      ∙ ap (λ t. perform t (answers i)) (sym (reached i w s before between))

  -- Of requests to GET /healthz at once, each is answered with the messages of its own run of the
  -- checks, but with the status and the code of the last run of any request before its answer; a
  -- request by itself is answered with the status and the code of its own run.
  pub perform_all_lem :
      (i : ℕ) (w : W) (s : Serving W) (before between : List (Action W))
      → no_run i between ≡ true
      → let details = (run_checks w s.service).1 in
        ((perform_all s (before ++ (runs i w ∷ (between ++ (answers i ∷ []))))).answered
          ≡ (i, reply (worst (last_run w between) s.service.checks.entries) details)
            ∷ (perform_all s (before ++ (runs i w ∷ between))).answered)
        × ((healthz w (codes "GET") s.service).1 ≡ reply (worst w s.service.checks.entries) details)
  unfolding perform answer_of healthz beq
  perform_all_lem i w s before between n =
      let start = perform_all s before in
      let c = perform_all-checks s before in
      let shown =
        between-Shows i start.service.checks (run_checks w start.service).1 between w
          (perform start (runs i w)) (runs-Shows i w start) n in
      (
        ap (λ t. t.answered) (answers_last i w s before between)
            ∙ ap (λ r. (i, r) ∷ (perform_all s (before ++ (runs i w ∷ between))).answered)
                (ap (λ t. answer_of t.service (t.details i)) (reached i w s before between)
                  ∙ ap₂ reply
                      (shown.status
                        ∙ ap (λ (m : Map (Checker W)). worst (last_run w between) m.entries) c)
                      (shown.kept ∙ details-checks w start.service s.service c)),
        ap (λ t. reply t (run_checks w s.service).1) (status_lem w s.service),
      )
