-- ===== src/ControlApi/Admin.antt =====
-- Whom `requireAdmin` lets pass.
use turnfly.Prelude.{
  ℕ, suc, ◌<◌, ◌≡◌, refl, sym, ap, ap₂, subst, ◌∙◌, ◌⊎◌, inl, inr, true, false, [], ◌∷◌, ◌++◌,
  length, take, drop, leb, arith, Bool-cases, take-append-drop, length-drop,
}
use turnfly.Text.{Bytes, codes, is_empty, beq, beq_iff}
use turnfly.ControlApi.Types.{Server, Request}
use turnfly.ControlApi.Handlers.{Handler, require_admin, bearer, json_error}

-- The header that carries a token.
abbrev pub bearer_of : Bytes → Bytes
bearer_of token = bearer ++ token

-- The header is that of the server's token, and the token is not empty.
pub record IsAdmin {W : Type 0} (s : Server W) (r : Request) : Type 0 where
  pub header : r.authorization ≡ bearer_of s.admin_token
  pub token : is_empty s.admin_token ≡ false

not_empty : (k : Bytes) → is_empty k ≡ false → 0 < length k
not_empty [] h = absurd (ground (arith, h))
not_empty (c ∷ k) h = omega arith

has_length : (k : Bytes) → 0 < length k → is_empty k ≡ false
has_length [] h = absurd (omega arith)
has_length (c ∷ k) h = refl

-- The four tests of `requireAdmin` on the header of an admin.
tests_pass :
    (auth token : Bytes)
    → auth ≡ bearer_of token
    → is_empty token ≡ false
    → (is_empty auth ≡ false)
      × (leb (length auth) 7 ≡ false)
      × (beq (take 7 auth) bearer ≡ true)
      × (beq (drop 7 auth) token ≡ true)
tests_pass auth token h n = (
  ap is_empty h,
  longer (length auth) (length token) (ap length h) (not_empty token n),
  (beq_iff (take 7 auth) bearer).1 (ap (take 7) h),
  (beq_iff (drop 7 auth) token).1 (ap (drop 7) h),
)
  where
    longer : (n k : ℕ) → n ≡ suc (suc (suc (suc (suc (suc (suc k)))))) → 0 < k → leb n 7 ≡ false
    longer n k e l = ground arith

tests_sound :
    (auth token : Bytes)
    → leb (length auth) 7 ≡ false
    → beq (take 7 auth) bearer ≡ true
    → beq (drop 7 auth) token ≡ true
    → (auth ≡ bearer_of token) × (is_empty token ≡ false)
tests_sound auth token l p k =
    let same : drop 7 auth ≡ token = (beq_iff (drop 7 auth) token).0 k in
    (
      sym (take-append-drop 7 auth) ∙ ap₂ (λ x y. x ++ y) ((beq_iff (take 7 auth) bearer).0 p) same,
      has_length token (subst (λ x. 0 < length x) same (rw (length-drop 7 auth) (ground arith))),
    )

module _ {W : Type 0} (next : Handler W) (s : Server W) (r : Request) where
  -- The answers that `requireAdmin` gives itself.
  abbrev pub Refused : Type 0
  Refused =
      (require_admin next s r ≡ (s, json_error 401 (codes "missing Authorization header")))
      ⊎ ((require_admin next s r
            ≡ (s, json_error 401 (codes "invalid Authorization header format")))
          ⊎ (require_admin next s r ≡ (s, json_error 403 (codes "invalid admin token"))))

  tests_of :
      IsAdmin s r
      → (is_empty r.authorization ≡ false)
        × (leb (length r.authorization) 7 ≡ false)
        × (beq (take 7 r.authorization) bearer ≡ true)
        × (beq (drop 7 r.authorization) s.admin_token ≡ true)
  tests_of h = tests_pass r.authorization s.admin_token h.header h.token

  -- A request reaches a handler behind requireAdmin if it carries the admin token, which must not
  -- be empty; any other is answered 401 or 403, and leaves the server as it is.
  pub require_admin_lem :
      (IsAdmin s r × (require_admin next s r ≡ next s r)) ⊎ ((IsAdmin s r → ⊥) × Refused)
  unfolding require_admin
  require_admin_lem = elim (Bool-cases (is_empty r.authorization)) [
    | inl e ↦ inr (λ h. absurd (ground (arith, e, (tests_of h).0)), inl (rw e refl))
    | inr e ↦ elim (Bool-cases (leb (length r.authorization) 7)) [
      | inl f ↦ inr (λ h. absurd (ground (arith, f, (tests_of h).1)), inr (inl (rw (e, f) refl)))
      | inr f ↦ elim (Bool-cases (beq (take 7 r.authorization) bearer)) [
        | inr g ↦
            inr (λ h. absurd (ground (arith, g, (tests_of h).2)), inr (inl (rw (e, f, g) refl)))
        | inl g ↦ elim (Bool-cases (beq (drop 7 r.authorization) s.admin_token)) [
          | inr k ↦
              inr
                (λ h. absurd (ground (arith, k, (tests_of h).3)), inr (inr (rw (e, f, g, k) refl)))
          | inl k ↦
              let (header, token) = tests_sound r.authorization s.admin_token f g k in
              inl (record { header = header; token = token }, rw (e, f, g, k) refl)
        ]
      ]
    ]
  ]
