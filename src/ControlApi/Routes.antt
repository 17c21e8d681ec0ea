-- ===== src/ControlApi/Routes.antt =====
-- What requests to the routes leave behind in the server.
use turnfly.Prelude.{
  ◌≡◌, refl, sym, ap, ◌∙◌, true, false, Option, List, [], ◌∷◌, Bool-cases, Option-cases, inl, inr,
  subst,
}
use turnfly.Int.{ℤ}
use turnfly.Text.{Bytes, codes, is_empty, beq}
use turnfly.Map.{Map}
use turnfly.ControlApi.Types.{Server, Request, CredentialsRequest, IceReportRequest}
use turnfly.ControlApi.Admin.{require_admin_lem}
use turnfly.ControlApi.Handlers.{
  is_method, require_admin, handle_deploy, serve_ready, handle_credentials, handle_regions,
  handle_ice_report, serve,
}
use turnfly.ControlApi.Reports.{
  reported, Gains, Gains-refl, Gains-trans, serve_health-Gains, win_count-increment, reports,
  report_count, unrouted, elsewhere,
}

module _ {W : Type 0} (hmac_sha1 : Bytes → Bytes → Bytes)
    (decode_credentials : Bytes → Option CredentialsRequest)
    (decode_ice_report : Bytes → Option IceReportRequest) (well_known : Map Bytes) where
  module _ (label : Bytes) (s : Server W) (r : Request) where
    handle_credentials-keeps :
        (now : ℤ)
        → (handle_credentials hmac_sha1 decode_credentials decode_ice_report well_known now s r).0
          ≡ s
    unfolding handle_credentials
    handle_credentials-keeps now = elim (Bool-cases (is_method (codes "POST") r)) [
      | inr e ↦ rw (e, handle_credentials) refl
      | inl e ↦ elim (Option-cases (decode_credentials r.body)) [
        | inl f ↦ rw (e, f, handle_credentials) refl
        | inr (req, f) ↦ elim (Bool-cases (is_empty req.user_id)) [
          | inl g ↦ rw (e, f, g, handle_credentials) refl
          | inr g ↦ rw (e, f, g, handle_credentials) refl
        ]
      ]
    ]

    handle_regions-keeps :
        (handle_regions hmac_sha1 decode_credentials decode_ice_report well_known s r).0 ≡ s
    unfolding handle_regions
    handle_regions-keeps = elim (Bool-cases (is_method (codes "GET") r)) [
      | inl e ↦ rw (e, handle_regions) refl
      | inr e ↦ rw (e, handle_regions) refl
    ]

    handle_deploy-keeps : (handle_deploy s r).0 ≡ s
    unfolding handle_deploy
    handle_deploy-keeps = elim (Bool-cases (is_method (codes "POST") r)) [
      | inl e ↦ rw (e, handle_deploy) refl
      | inr e ↦ rw (e, handle_deploy) refl
    ]

    require_admin-keeps : (require_admin handle_deploy s r).0 ≡ s
    require_admin-keeps = elim (require_admin_lem handle_deploy s r) [
      | inl (admin, e) ↦ ap (λ p. p.0) e ∙ handle_deploy-keeps
      | inr (other, inl e) ↦ ap (λ p. p.0) e
      | inr (other, inr (inl e)) ↦ ap (λ p. p.0) e
      | inr (other, inr (inr e)) ↦ ap (λ p. p.0) e
    ]

    serve_ready-keeps : (serve_ready s r).0 ≡ s
    serve_ready-keeps = refl

    handle_ice_report-Gains :
        beq r.path (codes "/v1/ice-report") ≡ true
        → Gains label
            (report_count decode_ice_report label r)
            s
            (handle_ice_report hmac_sha1 decode_credentials decode_ice_report well_known s r).0
    unfolding handle_ice_report reports
    handle_ice_report-Gains p = elim (Bool-cases (is_method (codes "POST") r)) [
      | inr e ↦ rw (p, e, handle_ice_report, reports) (Gains-refl label s s refl)
      | inl e ↦ elim (Option-cases (decode_ice_report r.body)) [
        | inl f ↦ rw (p, e, f, handle_ice_report, reports) (Gains-refl label s s refl)
        | inr (req, f) ↦ elim (Bool-cases (is_empty req.selected_region)) [
          | inl g ↦ rw (p, e, f, g, handle_ice_report, reports) (Gains-refl label s s refl)
          | inr g ↦
              rw (p, e, f, g, handle_ice_report, reports)
                (record {
                  secret = refl;
                  token = refl;
                  validity = refl;
                  store = refl;
                  checks = refl;
                  wins = win_count-increment s.wins req.selected_region label;
                })
        ]
      ]
    ]

    -- No other route has the path of the reports.
    routes_apart :
        (beq (codes "/v1/credentials") (codes "/v1/ice-report") ≡ false)
        × (beq (codes "/healthz") (codes "/v1/ice-report") ≡ false)
        × (beq (codes "/readyz") (codes "/v1/ice-report") ≡ false)
        × (beq (codes "/metrics") (codes "/v1/ice-report") ≡ false)
        × (beq (codes "/v1/deploy") (codes "/v1/ice-report") ≡ false)
        × (beq (codes "/v1/regions") (codes "/v1/ice-report") ≡ false)
    unfolding beq
    routes_apart = (refl, refl, refl, refl, refl, refl)

    -- A request that is no report, behind which the server is `s'`.
    silent :
        (s' : Server W)
        → report_count decode_ice_report label r ≡ 0
        → Gains label 0 s s'
        → Gains label (report_count decode_ice_report label r) s s'
    silent s' e g = subst (λ n. Gains label n s s') (sym e) g

    serve-Gains :
        (now : ℤ) (w : W)
        → Gains label
            (report_count decode_ice_report label r)
            s
            (serve hmac_sha1 decode_credentials decode_ice_report well_known now w s r).0
    unfolding serve
    serve-Gains now w =
        let other = elsewhere decode_ice_report label r in
        let (a1, a2, a3, a4, a5, a6) = routes_apart in
        elim (Bool-cases (beq r.path (codes "/v1/credentials"))) [
          | inl e ↦
              rw (e, serve)
                (silent _ (other _ e a1) (Gains-refl label s _ (handle_credentials-keeps now)))
          | inr e1 ↦ elim (Bool-cases (beq r.path (codes "/healthz"))) [
            | inl e ↦ rw (e1, e, serve) (silent _ (other _ e a2) (serve_health-Gains label w s r))
            | inr e2 ↦ elim (Bool-cases (beq r.path (codes "/readyz"))) [
              | inl e ↦ rw (e1, e2, e, serve) (silent s (other _ e a3) (Gains-refl label s s refl))
              | inr e3 ↦ elim (Bool-cases (beq r.path (codes "/metrics"))) [
                | inl e ↦
                    rw (e1, e2, e3, e, serve) (silent s (other _ e a4) (Gains-refl label s s refl))
                | inr e4 ↦ elim (Bool-cases (beq r.path (codes "/v1/deploy"))) [
                  | inl e ↦
                      rw (e1, e2, e3, e4, e, serve)
                        (silent _ (other _ e a5) (Gains-refl label s _ require_admin-keeps))
                  | inr e5 ↦ elim (Bool-cases (beq r.path (codes "/v1/regions"))) [
                    | inl e ↦
                        rw (e1, e2, e3, e4, e5, e, serve)
                          (silent _ (other _ e a6) (Gains-refl label s _ handle_regions-keeps))
                    | inr e6 ↦ elim (Bool-cases (beq r.path (codes "/v1/ice-report"))) [
                      | inl e ↦ rw (e1, e2, e3, e4, e5, e6, e, serve) (handle_ice_report-Gains e)
                      | inr e ↦
                          rw (e1, e2, e3, e4, e5, e6, e, serve)
                            (silent s (unrouted decode_ice_report label r e)
                              (Gains-refl label s s refl))
                    ]
                  ]
                ]
              ]
            ]
          ]
        ]

  -- The server behind a list of requests, each with its time and the state that its checks read.
  pub serve_all : List (ℤ × W × Request) → Server W → Server W
  serve_all [] s = s
  serve_all ((now, w, r) ∷ rs) s =
      serve_all rs (serve hmac_sha1 decode_credentials decode_ice_report well_known now w s r).0

  -- Whatever requests the server answers, its secret, its admin token, its validity, its store of
  -- regions and its registered checks stay as they are, and the wins of a region grow by the
  -- number of the POSTs to /v1/ice-report whose body decodes and selects this region.
  pub serve_all-Gains :
      (label : Bytes) (rs : List (ℤ × W × Request)) (s : Server W)
      → Gains label (reported decode_ice_report label rs) s (serve_all rs s)
  unfolding serve_all reported
  serve_all-Gains label [] s = Gains-refl label s s refl
  serve_all-Gains label ((now, w, r) ∷ rs) s =
      let s' = (serve hmac_sha1 decode_credentials decode_ice_report well_known now w s r).0 in
      Gains-trans label (report_count decode_ice_report label r)
        (reported decode_ice_report label rs) s s' (serve_all rs s') (serve-Gains label s r now w)
        (serve_all-Gains label rs s')
