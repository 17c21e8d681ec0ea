-- ===== src/FlyDeploy/Requests.antt =====
-- What one call of the client adds to the trace.
use turnfly.Prelude.{◌≡◌, refl, Bool, true, false, Option, ◌∷◌, if◌then◌else◌}
use turnfly.Result.{Result, ok, err}
use turnfly.Text.{Bytes}
use turnfly.FlyDeploy.Types.{FlyError}
use turnfly.FlyDeploy.Transport.{
  Trace, World, Client, Method, Body, sent, request_of, wrap, in_context, return, do_request,
}

pub wrap_trace : {A : Type 0} (text : Bytes) (r : Trace × Result FlyError A) → (wrap text r).0 ≡ r.0
wrap_trace text (t, ok a) = refl
wrap_trace text (t, err e) = refl

-- A call sends its request, and none in a dry run.
pub call_trace :
    {A : Type 0} (world : World) (dry : Bool) (a : A) (text : Bytes) (c : Client) (m : Method)
    (path : Bytes) (body : Body) (decode : Bytes → Option A) (t : Trace)
    → ((if dry then return a else in_context text (do_request world c m path body decode)) t).0
      ≡ (if dry then t else sent (request_of c m path body) ∷ t)
unfolding do_request
call_trace world true a text c m path body decode t = refl
call_trace world false a text c m path body decode t =
    wrap_trace text (do_request world c m path body decode t)
