-- ===== src/ControlApi/Reports.antt =====
-- The ICE reports that the server counts, and what a server keeps.
use turnfly.Prelude.{
  ℕ, ◌+◌, List, [], ◌∷◌, ◌≡◌, refl, ap, ◌∙◌, Bool, true, false, not, ◌&&◌, Option, none, some,
  if◌then◌else◌, arith, Bool-cases, inl, inr,
}
use turnfly.Int.{ℤ}
use turnfly.Text.{Bytes, codes, is_empty, beq, beq_iff}
use turnfly.Map
use turnfly.Map.{Map}
use turnfly.Map.Laws.{get-put}
use turnfly.Health.{healthz, run_checks}
use turnfly.ControlApi.Types.{Server, Request, IceReportRequest}
use turnfly.ControlApi.Handlers.{is_method, serve_health, increment}

or_zero : Option ℕ → ℕ
or_zero none = 0
or_zero (some n) = n

-- How often a region has won.
pub win_count : Map ℕ → Bytes → ℕ
win_count wins label = or_zero (Map.get wins label)

-- The server is the same up to the status of its checks, and `n` more wins of the region `label`.
pub record Gains {W : Type 0} (label : Bytes) (n : ℕ) (s s' : Server W) : Type 0 where
  pub secret : s'.shared_secret ≡ s.shared_secret
  pub token : s'.admin_token ≡ s.admin_token
  pub validity : s'.cred_validity ≡ s.cred_validity
  pub store : s'.region_store ≡ s.region_store
  pub checks : s'.health_service.checks ≡ s.health_service.checks
  pub wins : win_count s'.wins label ≡ win_count s.wins label + n

module _ {W : Type 0} (label : Bytes) where
  pub Gains-refl : (s s' : Server W) → s' ≡ s → Gains label 0 s s'
  Gains-refl s s' e = record {
    secret = ap (λ t. t.shared_secret) e;
    token = ap (λ t. t.admin_token) e;
    validity = ap (λ t. t.cred_validity) e;
    store = ap (λ t. t.region_store) e;
    checks = ap (λ t. t.health_service.checks) e;
    wins = ap (λ t. win_count t.wins label) e ∙ omega arith;
  }

  pub Gains-trans :
      (n m : ℕ) (s t u : Server W) → Gains label n s t → Gains label m t u → Gains label (n + m) s u
  Gains-trans n m s t u g h = record {
    secret = h.secret ∙ g.secret;
    token = h.token ∙ g.token;
    validity = h.validity ∙ g.validity;
    store = h.store ∙ g.store;
    checks = h.checks ∙ g.checks;
    wins = omega (arith, g.wins, h.wins);
  }

  pub serve_health-Gains :
      (w : W) (s : Server W) (r : Request) → Gains label 0 s (serve_health w s r).0
  unfolding healthz run_checks
  serve_health-Gains w s r = elim (Bool-cases (beq r.method (codes "GET"))) [
    | inl e ↦ record {
      secret = refl;
      token = refl;
      validity = refl;
      store = refl;
      checks = rw (e, healthz) refl;
      wins = omega arith;
    }
    | inr e ↦ record {
      secret = refl;
      token = refl;
      validity = refl;
      store = refl;
      checks = rw (e, healthz) refl;
      wins = omega arith;
    }
  ]

one_more : (o : Option ℕ) → (elim o [ none ↦ 1 | some n ↦ n + 1 ]) ≡ or_zero o + 1
unfolding or_zero
one_more none = omega arith
one_more (some n) = refl

pub win_count-increment :
    (wins : Map ℕ) (region label : Bytes)
    → win_count (increment wins region) label
      ≡ win_count wins label + (if beq region label then 1 else 0)
unfolding win_count or_zero
win_count-increment wins region label =
    ap or_zero
      (get-put wins region label (elim (Map.get wins region) [ none ↦ 1 | some n ↦ n + 1 ]))
    ∙ chosen (beq region label) (λ e. ap (Map.get wins) ((beq_iff region label).0 e))
  where
    chosen :
        (b : Bool)
        → (b ≡ true → Map.get wins region ≡ Map.get wins label)
        → or_zero (
            if b
            then some (elim (Map.get wins region) [ none ↦ 1 | some n ↦ n + 1 ])
            else Map.get wins label)
          ≡ or_zero (Map.get wins label) + (if b then 1 else 0)
    chosen true same = one_more (Map.get wins region) ∙ ap (λ o. or_zero o + 1) (same refl)
    chosen false same = omega arith

module _ (decode_ice_report : Bytes → Option IceReportRequest) where
  -- A POST to /v1/ice-report with a body that decodes and selects the region.
  unfoldable pub reports : Bytes → Request → Bool
  reports label r =
      beq r.path (codes "/v1/ice-report")
      && is_method (codes "POST") r
      && (elim (decode_ice_report r.body) [
        | none ↦ false
        | some req ↦ not (is_empty req.selected_region) && beq req.selected_region label
      ])

  abbrev pub report_count : Bytes → Request → ℕ
  report_count label r = if reports label r then 1 else 0

  pub unrouted :
      (label : Bytes) (r : Request)
      → beq r.path (codes "/v1/ice-report") ≡ false
      → report_count label r ≡ 0
  unfolding reports
  unrouted label r e = rw (e, reports) refl

  pub elsewhere :
      (label : Bytes) (r : Request) (path : Bytes)
      → beq r.path path ≡ true
      → beq path (codes "/v1/ice-report") ≡ false
      → report_count label r ≡ 0
  elsewhere label r path e n =
      unrouted label r (ap (λ p. beq p (codes "/v1/ice-report")) ((beq_iff r.path path).0 e) ∙ n)

  -- How many of the requests report the region `label`.
  unfoldable pub reported : {W : Type 0} → Bytes → List (ℤ × W × Request) → ℕ
  reported label [] = 0
  reported label ((now, w, r) ∷ rs) = report_count label r + reported label rs
