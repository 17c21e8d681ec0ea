-- ===== src/Config/Validation.antt =====
-- When a configuration is valid.
use turnfly.Prelude.{
  ◌≡◌, ◌↔◌, ◌≢◌, Bool, true, false, not, List, [], ◌++◌, arith, inl, inr, Bool-cases,
}
use turnfly.Int.{ℤ, pos, ◌≤ℤ◌, eq_ℤ, eq_of_parts}
use turnfly.Text.{is_empty}
use turnfly.Config.{Config, ConfigError, report, out_of_range, is_level, validate}

pub record IsValid (c : Config) : Type 0 where
  pub realm : is_empty c.turn_realm ≡ false
  pub secret : is_empty c.turn_shared_secret ≡ false
  pub token : is_empty c.admin_api_token ≡ false
  pub turn_port : (pos 1 ≤ℤ c.turn_port) × (c.turn_port ≤ℤ pos 65535)
  pub http_port : (pos 1 ≤ℤ c.http_port) × (c.http_port ≤ℤ pos 65535)
  pub level : is_level c.log_level ≡ true
  pub ports_differ : c.turn_port ≢ c.http_port

-- Nothing is reported exactly if the test passes.
report_none :
    (b : Bool) (e : ConfigError) (es : List ConfigError)
    → (report b e ++ es ≡ []) ↔ ((b ≡ false) × (es ≡ []))
report_none true e es = ground arith
report_none false e es = ground arith

last_report_none : (b : Bool) (e : ConfigError) → (report b e ≡ []) ↔ (b ≡ false)
last_report_none true e = ground arith
last_report_none false e = ground arith

in_range : (p : ℤ) → (out_of_range p ≡ false) ↔ ((pos 1 ≤ℤ p) × (p ≤ℤ pos 65535))
in_range p = ground arith

differ : (p q : ℤ) → (eq_ℤ p q ≡ false) ↔ (p ≢ q)
differ p q = (
  λ h e. ground (arith, h, e),
  λ h. elim (Bool-cases (eq_ℤ p q)) [
    | inl e ↦ absurd (h (eq_of_parts p q (ground (arith, e))))
    | inr e ↦ e
  ],
)

not-false : (b : Bool) → (not b ≡ false) ↔ (b ≡ true)
not-false true = ground arith
not-false false = ground arith

-- Validate reports nothing exactly if the realm, the secret and the token are set, both ports are
-- between 1 and 65535 and differ, and the log level is one of the four.
pub validate_iff : (c : Config) → (validate c ≡ []) ↔ IsValid c
unfolding validate
validate_iff c = (
  λ h.
      let (a, h1) = (report_none _ _ _).0 h in
      let (b, h2) = (report_none _ _ _).0 h1 in
      let (d, h3) = (report_none _ _ _).0 h2 in
      let (e, h4) = (report_none _ _ _).0 h3 in
      let (f, h5) = (report_none _ _ _).0 h4 in
      let (g, h6) = (report_none _ _ _).0 h5 in
      record {
        realm = a;
        secret = b;
        token = d;
        turn_port = (in_range c.turn_port).0 e;
        http_port = (in_range c.http_port).0 f;
        level = (not-false (is_level c.log_level)).0 g;
        ports_differ = (differ c.turn_port c.http_port).0 ((last_report_none _ _).0 h6);
      },
  λ (v : IsValid c). (report_none _ _ _).1 (
    v.realm,
    (report_none _ _ _).1 (
      v.secret,
      (report_none _ _ _).1 (
        v.token,
        (report_none _ _ _).1 (
          (in_range c.turn_port).1 v.turn_port,
          (report_none _ _ _).1 (
            (in_range c.http_port).1 v.http_port,
            (report_none _ _ _).1 (
              (not-false (is_level c.log_level)).1 v.level,
              (last_report_none _ _).1 ((differ c.turn_port c.http_port).1 v.ports_differ),
            ),
          ),
        ),
      ),
    ),
  ),
)
