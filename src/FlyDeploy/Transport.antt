-- ===== src/FlyDeploy/Transport.antt =====
-- internal/flydeploy/client.go: requests and replies, and what `doRequest` makes of them. The
-- API, the clock and the context are parameters: what they answer may depend on all that was
-- sent before.
use turnfly.Prelude.{ℕ, Bool, Option, none, some, List, ◌∷◌, ◌++◌, leb, ◌==◌, if◌then◌else◌}
use turnfly.Result.{Result, ok, err}
use turnfly.Text.{Bytes, codes}
use turnfly.Text.Strings.{trim_slashes}
use turnfly.FlyDeploy.Types.{
  CreateAppRequest, App, CreateMachineRequest, Machine, IpAddress, AllocateIpRequest, FlyError,
  create_request, http_request, api_error, decode_response, wrapped,
}

pub data Method : Type 0 where
  method_get : Method
  method_post : Method
  method_delete : Method

-- The value that is marshalled as the body of a request.
pub data Body : Type 0 where
  no_body : Body
  create_app_body : CreateAppRequest → Body
  machine_body : CreateMachineRequest → Body
  ip_body : AllocateIpRequest → Body

pub record Request : Type 0 where
  pub method : Method
  pub url : Bytes
  pub token : Bytes
  pub body : Body

-- What comes of a request: net/http refuses to build it, so that nothing goes out, an error of the
-- transport, or a status code and a body.
pub data Reply : Type 0 where
  no_request : Bytes → Reply
  no_reply : Bytes → Reply
  reply : ℕ → Bytes → Reply

-- What a process does to the world: it hands requests to net/http, the ones that this refuses to
-- build included, and it sleeps. The latest comes first.
pub data Action : Type 0 where
  sent : Request → Action
  slept : ℕ → Action

abbrev pub Trace : Type 0
Trace = List Action

-- The Fly API behind net/http, the decoders of encoding/json, the clock, and the context: whether
-- it is done, or is cancelled, within a sleep, and how long the sleep has lasted by then.
pub record World : Type 0 where
  pub respond : Trace → Request → Reply
  pub decode_app : Bytes → Option App
  pub decode_apps : Bytes → Option (List App)
  pub decode_machine : Bytes → Option Machine
  pub decode_machines : Bytes → Option (List Machine)
  pub decode_ip : Bytes → Option IpAddress
  pub decode_ips : Bytes → Option (List IpAddress)
  pub clock : Trace → ℕ
  pub interrupt : Trace → ℕ → Option ℕ

-- A call goes on from a trace and returns a value or an error.
abbrev pub Call : Type 0 → Type 0
Call A = Trace → Trace × Result FlyError A

abbrev pub return : {A : Type 0} → A → Call A
return a t = (t, ok a)

abbrev pub fail : {A : Type 0} → FlyError → Call A
fail e t = (t, err e)

abbrev pub after :
    {A B : Type 0} → Trace × Result FlyError A → (A → Call B) → Trace × Result FlyError B
after (t, ok a) f = f a t
after (t, err e) f = (t, err e)

infixl 5 ◌>>=◌
abbrev pub ◌>>=◌ : {A B : Type 0} → Call A → (A → Call B) → Call B
(m >>= f) t = after (m t) f

-- `fmt.Errorf(text + ": %w", err)` on the error of a call, without the names that the text quotes.
abbrev pub wrap : {A : Type 0} → Bytes → Trace × Result FlyError A → Trace × Result FlyError A
wrap text (t, ok a) = (t, ok a)
wrap text (t, err e) = (t, err (wrapped text e))

abbrev pub in_context : {A : Type 0} → Bytes → Call A → Call A
in_context text m t = wrap text (m t)

pub record Client : Type 0 where
  pub base_url : Bytes
  pub token : Bytes
  pub dry_run : Bool

-- `NewClient`
unfoldable pub new_client : Bytes → Bool → Client
new_client token dry_run = record {
  base_url = codes "https://api.machines.dev";
  token = token;
  dry_run = dry_run;
}

-- `(*Client).SetBaseURL`
unfoldable pub set_base_url : Client → Bytes → Client
set_base_url c url = record c { base_url = trim_slashes url }

-- The dash of the message is three bytes.
abbrev pub auth_failed : Bytes
auth_failed = codes "authentication failed " ++ (226 ∷ 128 ∷ 148 ∷ codes " check FLY_API_TOKEN")

-- A reply as `doRequest` reads it.
unfoldable pub read_reply : {A : Type 0} → (Bytes → Option A) → Reply → Result FlyError A
read_reply decode (no_request message) = err (create_request message)
read_reply decode (no_reply message) = err (http_request message)
read_reply decode (reply status body) =
    if leb 400 status
    then err (api_error status (if status == 401 then auth_failed else body))
    else elim (decode body) [ none ↦ err decode_response | some a ↦ ok a ]

-- A body that nothing reads.
abbrev pub ignore_body : Bytes → Option (Unit {0})
ignore_body body = some tt

-- `/v1/apps/<app>`, and what hangs below it.
abbrev pub app_path : Bytes → Bytes
app_path app = codes "/v1/apps/" ++ app

abbrev pub machines_path : Bytes → Bytes
machines_path app = app_path app ++ codes "/machines"

abbrev pub machine_path : Bytes → Bytes → Bytes
machine_path app id = machines_path app ++ (47 ∷ id)

abbrev pub ips_path : Bytes → Bytes
ips_path app = app_path app ++ codes "/ip_assignments"

-- The request of a call, with its headers: the token stands for `Authorization: Bearer`.
abbrev pub request_of : Client → Method → Bytes → Body → Request
request_of c method path body = record {
  method = method;
  url = c.base_url ++ path;
  token = c.token;
  body = body;
}

module _ (world : World) where
  -- `(*Client).doRequest`, with the decoder of its result.
  unfoldable pub do_request :
      {A : Type 0} → Client → Method → Bytes → Body → (Bytes → Option A) → Call A
  do_request c method path body decode t =
      let request = request_of c method path body in
      (sent request ∷ t, read_reply decode (world.respond t request))
