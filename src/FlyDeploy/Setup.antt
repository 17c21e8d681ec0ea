-- ===== src/FlyDeploy/Setup.antt =====
-- The app and the addresses that `Deploy` ensures before its machines.
use turnfly.Prelude.{
  ◌≡◌, refl, ap, subst, ◌∙◌, Bool, true, false, Option, none, some, List, [], ◌∷◌, length, ltb,
  if◌then◌else◌, Bool-cases, inl, inr,
}
use turnfly.Result.{Result, ok, err}
use turnfly.Text.{Bytes, codes, is_empty}
use turnfly.FlyDeploy.Types.{
  FlyError, App, IpAddress, MachineConfig, AllocateIpRequest, effective_org_slug, required,
}
use turnfly.FlyDeploy.Transport.{
  Trace, Action, World, Client, Call, Method, method_delete, Body, in_context, return, ◌>>=◌,
  do_request, sent, request_of,
}
use turnfly.FlyDeploy.Client.{get_app, create_app, list_ips, allocate_ip}
use turnfly.FlyDeploy.Plan.{DeployConfig, DeployResult, missing, with_defaults}
use turnfly.FlyDeploy.Deployer.{deploy, converge, ensure_app, ensure_ips}
use turnfly.FlyDeploy.Effects.{
  Adds, Effect, Adds-refl, Adds-one, Adds-trans, return-Effect, context-Effect, bind-Effect,
  if-Effect, call-Effect,
}
use turnfly.FlyDeploy.Answers.{after_ok, return_ok}

abbrev pub is_delete : Method → Bool
is_delete method_delete = true
is_delete m = false

module _ (world : World) (deep_equal : MachineConfig → MachineConfig → Bool) (c : Client) where
  -- `ensureIPs` behind the addresses that there are.
  abbrev v4_request : Bytes → AllocateIpRequest
  v4_request org = record { kind = codes "v4"; region = []; org_slug = org }

  abbrev pub one_address : Bytes → Bytes → Call (List IpAddress)
  one_address app org =
      in_context (codes "allocate ipv4") (allocate_ip world c app (v4_request org))
      >>= (λ v4. return (v4 ∷ []))

  abbrev pub some_address : Bytes → Bytes → List IpAddress → Call (List IpAddress)
  some_address app org existing =
      if ltb 0 (length existing) then return existing else one_address app org

  -- None of their requests destroys anything.
  module _ (P : Action → Type 0)
      (keeps : (m : Method) (path : Bytes) (body : Body)
        → is_delete m ≡ false
        → P (sent (request_of c m path body))) where
    request-Effect :
        {A : Type 0} (m : Method) (path : Bytes) (body : Body) (decode : Bytes → Option A)
        → is_delete m ≡ false
        → Effect P (do_request world c m path body decode)
    unfolding do_request
    request-Effect m path body decode e t =
        Adds-one P (sent (request_of c m path body)) t (keeps m path body e)

    get_app-Effect : (app : Bytes) → Effect P (get_app world c app)
    unfolding get_app
    get_app-Effect app = call-Effect P world c.dry_run _ _ c _ _ _ _ (keeps _ _ _ refl)

    create_app-Effect : (app org : Bytes) → Effect P (create_app world c app org)
    unfolding create_app
    create_app-Effect app org = call-Effect P world c.dry_run _ _ c _ _ _ _ (keeps _ _ _ refl)

    pub ensure_app-Effect : (app org : Bytes) → Effect P (ensure_app world deep_equal c app org)
    unfolding ensure_app
    ensure_app-Effect app org t = by_answer (get_app world c app t) (get_app-Effect app t)
      where
        by_answer :
            (x : Trace × Result FlyError App)
            → Adds P t x.0
            → Adds P t
                (elim x.1 as (λ _. Trace × Result FlyError App) [
                  | ok a ↦ (x.0, ok a)
                  | err e ↦ create_app world c app org x.0
                ]).0
        by_answer (u, ok a) h = h
        by_answer (u, err e) h =
            Adds-trans P t u (create_app world c app org u).0 h (create_app-Effect app org u)

    list_ips-Effect : (app : Bytes) → Effect P (list_ips world c app)
    unfolding list_ips
    list_ips-Effect app = call-Effect P world c.dry_run _ _ c _ _ _ _ (keeps _ _ _ refl)

    allocate_ip-Effect :
        (app : Bytes) (req : AllocateIpRequest) → Effect P (allocate_ip world c app req)
    unfolding allocate_ip
    allocate_ip-Effect app req =
        if-Effect P c.dry_run _ _ (λ t. Adds-refl P t)
          (bind-Effect P _ _
            (context-Effect P (codes "allocate ip") _ (request-Effect _ _ _ world.decode_ip refl))
            (λ ip t. Adds-refl P t))

    one_address-Effect : (app org : Bytes) → Effect P (one_address app org)
    one_address-Effect app org =
        bind-Effect P {A = IpAddress} {B = List IpAddress}
          (in_context (codes "allocate ipv4") (allocate_ip world c app (v4_request org)))
          (λ v4. return (v4 ∷ []))
          (context-Effect P {A = IpAddress} (codes "allocate ipv4")
            (allocate_ip world c app (v4_request org)) (allocate_ip-Effect app (v4_request org)))
          (λ v4. return-Effect P {A = List IpAddress} (v4 ∷ []))

    pub ensure_ips-Effect : (app org : Bytes) → Effect P (ensure_ips world deep_equal c app org)
    unfolding ensure_ips
    ensure_ips-Effect app org =
        bind-Effect P {A = List IpAddress} {B = List IpAddress} (list_ips world c app)
          (some_address app org) (list_ips-Effect app)
          (λ existing.
            if-Effect P {A = List IpAddress} (ltb 0 (length existing)) (return existing)
              (one_address app org) (return-Effect P existing) (one_address-Effect app org))

  some_address-some :
      (app org : Bytes) (existing : List IpAddress) (t u : Trace) (ips : List IpAddress)
      → some_address app org existing t ≡ (u, ok ips)
      → ltb 0 (length ips) ≡ true
  some_address-some app org existing t u ips h = elim (Bool-cases (ltb 0 (length existing))) [
    | inl e ↦
        let (same, _) =
          return_ok existing ips t u (
            subst (λ b. (if b then return existing else one_address app org) t ≡ (u, ok ips)) e
              h) in
        ap (λ l. ltb 0 (length l)) same ∙ e
    | inr e ↦
        let (v, v4, _, h') =
          after_ok {A = IpAddress} {B = List IpAddress}
            (in_context (codes "allocate ipv4") (allocate_ip world c app (v4_request org)) t)
            (λ v4. return (v4 ∷ [])) u ips
            (subst (λ b. (if b then return existing else one_address app org) t ≡ (u, ok ips)) e
              h) in
        ap (λ l. ltb 0 (length l)) (return_ok (v4 ∷ []) ips v u h').0
  ]

  pub ensure_ips-some :
      (app org : Bytes) (t u : Trace) (ips : List IpAddress)
      → ensure_ips world deep_equal c app org t ≡ (u, ok ips)
      → ltb 0 (length ips) ≡ true
  unfolding ensure_ips
  ensure_ips-some app org t u ips h =
      let (v, existing, _, h') =
        after_ok {A = List IpAddress} {B = List IpAddress} (list_ips world c app t)
          (some_address app org) u ips h in
      some_address-some app org existing v u ips h'

  -- `Deploy` behind its checks, and behind the app.
  abbrev pub ip_org : DeployConfig → App → Bytes
  ip_org cfg app =
      if is_empty (effective_org_slug app) then cfg.org_slug else effective_org_slug app

  abbrev pub with_app : DeployConfig → App → Call DeployResult
  with_app cfg app =
      in_context (codes "ensure ips") (ensure_ips world deep_equal c cfg.app_name (ip_org cfg app))
      >>= converge world deep_equal c cfg app

  abbrev pub checked : DeployConfig → Call DeployResult
  checked cfg =
      in_context (codes "ensure app") (ensure_app world deep_equal c cfg.app_name cfg.org_slug)
      >>= with_app cfg

  pub deploy-none :
      (given : DeployConfig) (t : Trace)
      → missing given ≡ none
      → deploy world deep_equal c given t ≡ checked (with_defaults given) t
  unfolding deploy
  deploy-none given t e = rw (e, deploy) refl

  pub deploy-some :
      (given : DeployConfig) (message : Bytes) (t : Trace)
      → missing given ≡ some message
      → deploy world deep_equal c given t ≡ (t, err (required message))
  unfolding deploy
  deploy-some given message t e = rw (e, deploy) refl
