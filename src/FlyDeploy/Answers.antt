-- ===== src/FlyDeploy/Answers.antt =====
-- What a call that succeeds has asked the API for.
use turnfly.Prelude.{
  All-imp, ◌≡◌, refl, sym, ap, subst, Bool, true, false, Option, if◌then◌else◌, arith,
}
use turnfly.Result.{Result, ok, err}
use turnfly.Text.{Bytes}
use turnfly.FlyDeploy.Types.{FlyError}
use turnfly.FlyDeploy.Transport.{
  Trace, Action, World, Client, Call, Method, Body, sent, request_of, wrap, after, in_context,
  return, do_request,
}
use turnfly.FlyDeploy.Effects.{Adds, Adds-refl, Adds-one, Adds-trans}

abbrev pub Anything : Action → Type 0
Anything a = Unit

-- The second trace goes on from the first.
abbrev pub Extends : Trace → Trace → Type 0
Extends = Adds Anything

pub Adds-Extends : (P : Action → Type 0) (t u : Trace) → Adds P t u → Extends t u
Adds-Extends P t u h = record {
  added = h.added;
  split = h.split;
  each = All-imp P Anything h.added (λ a p. tt) h.each;
}

-- Between two traces a request was sent, and the API answered it without an error.
pub record Answered {A : Type 0} (world : World) (c : Client) (method : Method) (path : Bytes)
    (body : Body) (decode : Bytes → Option A) (t u : Trace) (a : A) : Type 0 where
  pub at : Trace
  pub before : Extends t at
  pub answer : (do_request world c method path body decode at).1 ≡ ok a
  pub behind : Extends (do_request world c method path body decode at).0 u

pub after_ok :
    {A B : Type 0} (r : Trace × Result FlyError A) (f : A → Call B) (u : Trace) (b : B)
    → after r f ≡ (u, ok b)
    → (v : Trace) × (a : A) × (r ≡ (v, ok a)) × (f a v ≡ (u, ok b))
after_ok (v, ok a) f u b h = (v, a, refl, h)
after_ok (v, err e) f u b h = absurd (ground (arith, h))

pub wrap_ok :
    {A : Type 0} (text : Bytes) (r : Trace × Result FlyError A) (u : Trace) (a : A)
    → wrap text r ≡ (u, ok a)
    → r ≡ (u, ok a)
wrap_ok text (v, ok a') u a h = h
wrap_ok text (v, err e) u a h = absurd (ground (arith, h))

pub return_ok :
    {A : Type 0} (a b : A) (t u : Trace) → return a t ≡ (u, ok b) → (b ≡ a) × Extends t u
return_ok a b t u h = (
  sym (ap (λ r. elim r.1 [ ok x ↦ x | err e ↦ a ]) h),
  subst (λ v. Extends t v) (ap (λ r. r.0) h) (Adds-refl Anything t),
)

module _ {A : Type 0} (world : World) (c : Client) (method : Method) (path : Bytes) (body : Body)
    (decode : Bytes → Option A) where
  pub Answered-Extends :
      (t u : Trace) (a : A) → Answered world c method path body decode t u a → Extends t u
  unfolding do_request
  Answered-Extends t u a h = Adds-trans Anything t h.at u h.before (
      Adds-trans Anything h.at (do_request world c method path body decode h.at).0 u
        (Adds-one Anything (sent (request_of c method path body)) h.at tt) h.behind)

  pub widen :
      (t t' u u' : Trace) (a : A)
      → Extends t t'
      → Extends u' u
      → Answered world c method path body decode t' u' a
      → Answered world c method path body decode t u a
  widen t t' u u' a before behind h = record {
    at = h.at;
    before = Adds-trans Anything t t' h.at before h.before;
    answer = h.answer;
    behind =
        Adds-trans Anything (do_request world c method path body decode h.at).0 u' u h.behind
          behind;
  }

  -- A call outside a dry run that returns a value.
  pub call-Answered :
      (dry : Bool) (pretended a : A) (text : Bytes) (t u : Trace)
      → dry ≡ false
      → (if dry
            then return pretended
            else in_context text (do_request world c method path body decode))
          t
        ≡ (u, ok a)
      → Answered world c method path body decode t u a
  call-Answered true pretended a text t u wet h = absurd (ground (arith, wet))
  call-Answered false pretended a text t u wet h =
      let asked = wrap_ok text (do_request world c method path body decode t) u a h in
      record {
        at = t;
        before = Adds-refl Anything t;
        answer = ap (λ r. r.1) asked;
        behind = subst (λ v. Extends v u) (sym (ap (λ r. r.0) asked)) (Adds-refl Anything u);
      }
