-- ===== src/Health/Checks.antt =====
-- What a run of the checks reports, whatever the order in which `range` meets them.
use turnfly.Prelude.{
  ◌≡◌, refl, sym, ap, ◌↔◌, ◌∙◌, Bool, true, false, none, some, List, [], ◌∷◌, ◌&&◌, if◌then◌else◌,
  arith, ◌⊎◌, inl, inr, Bool-cases,
}
use turnfly.Text.{Bytes, codes, beq, beq_iff, beq_refl}
use turnfly.Map
use turnfly.Map.{Map, IsMap, Distinct, lookup}
use turnfly.Map.Laws.{get-put, get-empty, get-entries, lookup-nil, lookup-cons}
use turnfly.Health.{
  Status, healthy, degraded, unhealthy, is_unhealthy, is_degraded, is_healthy, Checker, Service,
  combine, check_loop, run_checks, get_status, status_code, healthz, readyz,
}

-- Whether a check of the list reports a status that the test accepts.
abbrev pub any_report : {W : Type 0} → (Status → Bool) → W → List (Bytes × Checker W) → Bool
any_report test w [] = false
any_report test w ((n, c) ∷ m) = if test (c w).0 then true else any_report test w m

-- The worst of the reports.
abbrev pub worst : {W : Type 0} → W → List (Bytes × Checker W) → Status
worst w m =
    if any_report is_unhealthy w m
    then unhealthy
    else if any_report is_degraded w m
    then degraded
    else healthy

-- A registered check reports a status that the test accepts.
pub record Reports {W : Type 0} (w : W) (test : Status → Bool) (checks : Map (Checker W))
    : Type 0 where
  pub name : Bytes
  pub check : Checker W
  pub registered : Map.get checks name ≡ some check
  pub reported : test (check w).0 ≡ true

unhealthy_kept :
    (overall : Status) → overall ≡ (if is_unhealthy overall then unhealthy else overall)
unhealthy_kept overall = ground arith

combine_lem :
    (overall status : Status) (u d : Bool)
    → (if is_unhealthy (combine overall status)
        then unhealthy
        else if u
        then unhealthy
        else if d && is_healthy (combine overall status)
        then degraded
        else combine overall status)
      ≡ (if is_unhealthy overall
          then unhealthy
          else if (if is_unhealthy status then true else u)
          then unhealthy
          else if (if is_degraded status then true else d) && is_healthy overall
          then degraded
          else overall)
combine_lem overall status u d = ground arith

module _ {W : Type 0} where
  check_loop-status :
      (w : W) (m : List (Bytes × Checker W)) (results : Map Bytes) (overall : Status)
      → (check_loop w m results overall).1 ≡ (
          if is_unhealthy overall
          then unhealthy
          else if any_report is_unhealthy w m
          then unhealthy
          else if any_report is_degraded w m && is_healthy overall
          then degraded
          else overall)
  unfolding check_loop
  check_loop-status w [] results overall = unhealthy_kept overall
  check_loop-status w ((n, c) ∷ m) results overall =
      check_loop-status w m (Map.put results n (c w).1) (combine overall (c w).0)
      ∙ combine_lem overall (c w).0 (any_report is_unhealthy w m) (any_report is_degraded w m)

  check_loop-results :
      (w : W) (m : List (Bytes × Checker W)) (results : Map Bytes) (overall : Status) (j : Bytes)
      → Distinct m
      → Map.get (check_loop w m results overall).0 j
        ≡ elim (lookup j m) [ none ↦ Map.get results j | some c ↦ some (c w).1 ]
  unfolding check_loop
  check_loop-results w [] results overall j h = rw (lookup-nil {V = Checker W} j) refl
  check_loop-results w ((n, c) ∷ m) results overall j h = ground (
    arith,
    check_loop-results w m (Map.put results n (c w).1) (combine overall (c w).0) j h.1,
    lookup-cons j n c m,
    h.0,
    beq_iff n j,
    get-put results n j (c w).1,
  )

  any_report-holds :
      (test : Status → Bool) (w : W) (m : List (Bytes × Checker W)) (k : Bytes) (c : Checker W)
      → lookup k m ≡ some c
      → test (c w).0 ≡ true
      → any_report test w m ≡ true
  any_report-holds test w [] k c e h = absurd (ground (arith, e, lookup-nil {V = Checker W} k))
  any_report-holds test w ((j, d) ∷ m) k c e h = elim (Bool-cases (beq j k)) [
    | inl f ↦ ground (arith, e, f, h, lookup-cons k j d m)
    | inr f ↦ ground (arith, f, any_report-holds test w m k c, e, h, lookup-cons k j d m)
  ]

  any_report-found :
      (test : Status → Bool) (w : W) (m : List (Bytes × Checker W))
      → Distinct m
      → any_report test w m ≡ true
      → (k : Bytes) × (c : Checker W) × (lookup k m ≡ some c) × (test (c w).0 ≡ true)
  any_report-found test w [] d h = absurd (ground (arith, h))
  any_report-found test w ((j, c) ∷ m) d h = elim (Bool-cases (test (c w).0)) [
    | inl e ↦ (j, c, ground (arith, lookup-cons j j c m, beq_refl j), e)
    | inr e ↦
        let (k, c', f, g) = any_report-found test w m d.1 (ground (arith, e, h)) in
        (k, c', ground (arith, lookup-cons k j c m, f, d.0, beq_iff j k), g)
  ]

  any_report_iff :
      (test : Status → Bool) (w : W) (checks : Map (Checker W))
      → IsMap checks
      → (any_report test w checks.entries ≡ true) ↔ Reports w test checks
  any_report_iff test w checks h = (
    λ e.
        let (k, c, f, g) = any_report-found test w checks.entries h.distinct e in
        record { name = k; check = c; registered = get-entries checks k ∙ f; reported = g },
    λ (r : Reports w test checks).
        any_report-holds test w checks.entries r.name r.check
          (sym (get-entries checks r.name) ∙ r.registered) r.reported,
  )

  pub status_lem :
      (w : W) (s : Service W) → get_status (run_checks w s).0 ≡ worst w s.checks.entries
  unfolding run_checks get_status
  status_lem w s = ground (arith, check_loop-status w s.checks.entries Map.empty healthy)

  pub answer_lem :
      (w : W) (s : Service W)
      → (healthz w (codes "GET") s).0 ≡ (run_checks w s).0
        × ((healthz w (codes "GET") s).1.code ≡ status_code (worst w s.checks.entries))
        × ((healthz w (codes "GET") s).1.body
            ≡ some (get_status (run_checks w s).0, (run_checks w s).1))
  unfolding healthz beq
  answer_lem w s = (refl, ap status_code (status_lem w s), refl)

  -- The code is 503 for a bad report and 200 otherwise.
  code_lem :
      (w : W) (m : List (Bytes × Checker W))
      → ((any_report is_unhealthy w m ≡ true) × (status_code (worst w m) ≡ 503))
        ⊎ ((any_report is_unhealthy w m ≡ false) × (status_code (worst w m) ≡ 200))
  code_lem w m = elim (Bool-cases (any_report is_unhealthy w m)) [
    | inl e ↦ inl (e, ground (arith, e))
    | inr e ↦ inr (e, ground (arith, e))
  ]

  details_lem :
      (w : W) (s : Service W) (name : Bytes)
      → IsMap s.checks
      → Map.get (run_checks w s).1 name
        ≡ elim (Map.get s.checks name) [ none ↦ none | some c ↦ some (c w).1 ]
  unfolding run_checks
  details_lem w s name h = ground (
    arith,
    check_loop-results w s.checks.entries Map.empty healthy name h.distinct,
    get-entries s.checks name,
    get-empty {V = Bytes} name,
  )

  readyz_lem :
      (s : Service W) → readyz (codes "GET") s ≡ (status_code (get_status s), some (get_status s))
  unfolding readyz beq
  readyz_lem s = refl

  -- GET /healthz with one entry for each check answers 503 exactly if a registered check reports
  -- unhealthy, and 200 otherwise; it reports the message of every check and of nothing else; and
  -- GET /readyz afterwards answers with the same code and the same status.
  pub healthz_lem :
      (w : W) (s : Service W)
      → IsMap s.checks
      → let (after, answer) = healthz w (codes "GET") s in
        ((answer.code ≡ 503) ↔ Reports w is_unhealthy s.checks)
        × ((answer.code ≡ 200) ⊎ (answer.code ≡ 503))
        × ((results : Map Bytes) × (answer.body ≡ some (get_status after, results))
            × ((name : Bytes)
                → Map.get results name
                  ≡ elim (Map.get s.checks name) [ none ↦ none | some c ↦ some (c w).1 ]))
        × (readyz (codes "GET") after ≡ (answer.code, some (get_status after)))
  healthz_lem w s h =
      let (after_is, code_is, body_is) = answer_lem w s in
      let (found, holds) = any_report_iff is_unhealthy w s.checks h in
      rw after_is (
        elim (code_lem w s.checks.entries) [
          | inl (e, f) ↦ (λ _. found e, λ _. code_is ∙ f)
          | inr (e, f) ↦ (
            λ g. absurd (ground (arith, f, g, code_is)),
            λ r. absurd (ground (arith, holds r, e)),
          )
        ],
        elim (code_lem w s.checks.entries) [
          | inl (e, f) ↦ inr (code_is ∙ f)
          | inr (e, f) ↦ inl (code_is ∙ f)
        ],
        ((run_checks w s).1, body_is, λ name. details_lem w s name h),
        readyz_lem (run_checks w s).0
            ∙ ap (λ c. (c, some (get_status (run_checks w s).0)))
                (ap status_code (status_lem w s) ∙ sym code_is),
      )
