-- ===== src/FlyDeploy/Effects.antt =====
-- What the calls of the client and the loops of the deployer may add to the trace.
use turnfly.Prelude.{
  ℕ, zero, suc, ◌+◌, ◌*◌, ◌/◌, ◌≡◌, refl, sym, ap, ◌∙◌, Bool, true, false, Option, List, [], ◌∷◌,
  ◌++◌, append_assoc, All, All-append, if◌then◌else◌, ltb, ◌||◌, inl, inr, Bool-cases, Option-cases,
}
use turnfly.Result.{Result, ok, err}
use turnfly.Clock.{second}
use turnfly.Text.{Bytes, codes}
use turnfly.Text.Strings.{equal_fold}
use turnfly.FlyDeploy.Types.{FlyError, Machine}
use turnfly.FlyDeploy.Requests.{wrap_trace, call_trace}
use turnfly.FlyDeploy.Transport.{
  Trace, Action, sent, slept, World, Client, Call, Method, Body, request_of, after, ◌>>=◌,
  in_context, return, do_request,
}
use turnfly.FlyDeploy.Client.{get_machine}
use turnfly.FlyDeploy.Poll.{pause, poll}
use turnfly.FlyDeploy.Waiting.{poll_step, poll_health, wait_for_healthy, wait_all}

-- The second trace goes on from the first with actions that the predicate allows.
pub record Adds (P : Action → Type 0) (t u : Trace) : Type 0 where
  pub added : Trace
  pub split : u ≡ added ++ t
  pub each : All P added

-- Wherever the call starts, it adds only actions that the predicate allows.
abbrev pub Effect : {A : Type 0} → (Action → Type 0) → Call A → Type 0
Effect P m = (t : Trace) → Adds P t (m t).0

module _ (P : Action → Type 0) where
  pub Adds-refl : (t : Trace) → Adds P t t
  Adds-refl t = record { added = []; split = refl; each = tt }

  pub Adds-one : (a : Action) (t : Trace) → P a → Adds P t (a ∷ t)
  Adds-one a t p = record { added = a ∷ []; split = refl; each = (p, tt) }

  pub Adds-trans : (t u v : Trace) → Adds P t u → Adds P u v → Adds P t v
  Adds-trans t u v f g = record {
    added = g.added ++ f.added;
    split = g.split ∙ ap (λ x. g.added ++ x) f.split ∙ sym (append_assoc g.added f.added t);
    each = All-append P g.added f.added g.each f.each;
  }

  pub return-Effect : {A : Type 0} (a : A) → Effect P (return a)
  return-Effect a t = Adds-refl t

  pub context-Effect :
      {A : Type 0} (text : Bytes) (m : Call A) → Effect P m → Effect P (in_context text m)
  context-Effect text m e t = rw (wrap_trace text (m t)) (e t)

  pub after-Adds :
      {A B : Type 0} (t : Trace) (r : Trace × Result FlyError A) (f : A → Call B)
      → Adds P t r.0
      → ((a : A) → Effect P (f a))
      → Adds P t (after r f).0
  after-Adds t (u, ok a) f e g = Adds-trans t u (f a u).0 e (g a u)
  after-Adds t (u, err x) f e g = e

  pub bind-Effect :
      {A B : Type 0} (m : Call A) (f : A → Call B)
      → Effect P m
      → ((a : A) → Effect P (f a))
      → Effect P (m >>= f)
  bind-Effect m f e g t = after-Adds t (m t) f (e t) g

  pub if-Effect :
      {A : Type 0} (b : Bool) (m n : Call A)
      → Effect P m
      → Effect P n
      → Effect P (if b then m else n)
  if-Effect true m n e f = e
  if-Effect false m n e f = f

  pub if-Adds : (b : Bool) (t u v : Trace) → Adds P t u → Adds P t v → Adds P t (if b then u else v)
  if-Adds true t u v e f = e
  if-Adds false t u v e f = f

  -- One call of the client.
  pub call-Effect :
      {A : Type 0} (world : World) (dry : Bool) (a : A) (text : Bytes) (c : Client) (m : Method)
      (path : Bytes) (body : Body) (decode : Bytes → Option A)
      → P (sent (request_of c m path body))
      → Effect P (if dry then return a else in_context text (do_request world c m path body decode))
  call-Effect world true a text c m path body decode p t = Adds-refl t
  call-Effect world false a text c m path body decode p t =
      rw (call_trace world false a text c m path body decode t)
        (Adds-one (sent (request_of c m path body)) t p)

-- Waiting asks for machines and sleeps.
module _ (P : Action → Type 0) (world : World) (c : Client) (app : Bytes)
    (asks : (id : Bytes) → Effect P (get_machine world c app id))
    (sleeps : (n : ℕ) → P (slept n)) where
  pause-Effect : (next : Call Unit) → Effect P next → Effect P (pause world (10 * second) next)
  unfolding pause
  pause-Effect next e t = elim (Option-cases (world.interrupt t (10 * second))) [
    | inr (n, h) ↦ rw (h, pause) (Adds-one P (slept n) t (sleeps n))
    | inl h ↦
        rw (h, pause)
          (Adds-trans P t (slept (10 * second) ∷ t) (next (slept (10 * second) ∷ t)).0
            (Adds-one P (slept (10 * second)) t (sleeps (10 * second)))
            (e (slept (10 * second) ∷ t)))
  ]

  poll_step-Adds :
      (id : Bytes) (next : Call Unit) (t : Trace) (r : Trace × Result FlyError Machine)
      → Adds P t r.0
      → Effect P next
      → Adds P t (poll_step world id next r).0
  unfolding poll_step
  poll_step-Adds id next t (u, err x) a e =
      Adds-trans P t u (pause world (10 * second) next u).0 a (pause-Effect next e u)
  poll_step-Adds id next t (u, ok m) a e =
      elim (Bool-cases (equal_fold m.state (codes "started"))) [
        | inl h ↦ rw (h, poll_step) a
        | inr h ↦
            elim (Bool-cases
              (equal_fold m.state (codes "error") || equal_fold m.state (codes "destroyed"))) [
                | inl g ↦ rw (h, poll_step) (rw g a)
                | inr g ↦
                    rw (h, poll_step)
                      (rw g (
                        Adds-trans P t u (pause world (10 * second) next u).0 a
                          (pause-Effect next e u)))
              ]
      ]

  poll_health-Effect :
      (fuel : ℕ) (id : Bytes) (deadline : ℕ) → Effect P (poll_health world fuel c app id deadline)
  unfolding poll
  poll_health-Effect zero id deadline t = Adds-refl P t
  poll_health-Effect (suc fuel) id deadline t = elim (Bool-cases (ltb (world.clock t) deadline)) [
    | inl h ↦
        rw (h, poll)
          (poll_step-Adds id (poll_health world fuel c app id deadline) t
            (get_machine world c app id t) (asks id t) (poll_health-Effect fuel id deadline))
    | inr h ↦ rw (h, poll) (Adds-refl P t)
  ]

  pub wait_all-Adds :
      (timeout : ℕ) (ms : List Machine) (t : Trace) → Adds P t (wait_all world c app timeout ms t)
  unfolding wait_all wait_for_healthy
  wait_all-Adds timeout [] t = Adds-refl P t
  wait_all-Adds timeout (m ∷ ms) t =
      Adds-trans P t _ _
        (poll_health-Effect (timeout / (10 * second) + 1) m.id (world.clock t + timeout) t)
        (wait_all-Adds timeout ms (wait_for_healthy world c app m.id timeout t).0)
