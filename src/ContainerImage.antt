-- ===== src/ContainerImage.antt =====
-- internal/containerimage/docker.go: which files of a directory go into the build context, the
-- name and the tag of an image, and a build and a push through the Docker engine.
pub mod Tags
pub mod Publishing
pub mod Context
mod Tests
use turnfly.Prelude.{
  ℕ, ◌+◌, ◌-◌, Bool, true, false, not, ◌&&◌, ◌||◌, Option, none, some, List, [], ◌∷◌, ◌++◌, length,
  take, drop, ltb, leb, ◌==◌, if◌then◌else◌,
}
use turnfly.Text.{Bytes, codes, is_empty, beq}
use turnfly.Result.{Result, ok, err}
use turnfly.Auth.Base64.{encode_base64_url}

-- `strings.LastIndex(s, c) + 1`, for a single character: 0 if it does not occur.
unfoldable pub last_position : ℕ → Bytes → ℕ
last_position c [] = 0
last_position c (d ∷ s) =
    let p = last_position c s in if ltb 0 p then p + 1 else if d == c then 1 else 0

-- `splitImageTag`
unfoldable pub split_image_tag : Bytes → Bytes × Bytes
split_image_tag image =
    let slash = last_position 47 image in
    let colon = last_position 58 image in
    if ltb slash colon then (take (colon - 1) image, drop colon image) else (image, codes "latest")

-- `strings.HasPrefix(s, p)`
abbrev pub has_prefix : Bytes → Bytes → Bool
has_prefix s p = leb (length p) (length s) && beq (take (length p) s) p

-- `strings.HasSuffix(s, p)`
abbrev pub has_suffix : Bytes → Bytes → Bool
has_suffix s p = leb (length p) (length s) && beq (drop (length s - length p) s) p

-- `shouldSkipContextPath`: the path below the root, and the name of the entry.
unfoldable pub should_skip_context_path : Bytes → Bytes → Bool
should_skip_context_path rel name =
    (beq name (codes ".git") || (beq name (codes "turnfly") || beq name (codes ".env")))
    || ((has_suffix name (codes ".test")
          || (has_suffix name (codes ".out") || has_suffix name (codes ".coverprofile")))
        || (has_prefix rel (codes "coverage.") || beq rel (codes "profile.cov")))

pub record PublishConfig : Type 0 where
  pub context_dir : Bytes
  pub dockerfile : Bytes
  pub image : Bytes
  pub token : Bytes

-- A line of the engine's answer, where it is JSON.
pub record Message : Type 0 where
  pub stream : Bytes
  pub status : Bytes
  pub error : Bytes

pub data PublishError : Type 0 where
  image_required : PublishError
  token_required : PublishError
  foreign_image : Bytes → PublishError
  no_context : Bytes → PublishError
  request_failed : Bytes → PublishError
  engine_status : ℕ → PublishError
  stream_error : Bytes → PublishError
  unsupported_host : Bytes → PublishError

-- A request to the engine: a build with its tag and its file, or a push with its tag.
pub data EngineCall : Type 0 where
  build_call : Bytes → Bytes → Bytes → EngineCall
  push_call : Bytes → Bytes → Bytes → EngineCall

-- What the engine answers: an error of the transport, or a status and the lines of a stream, which
-- may end in an error of the scanner.
pub data EngineReply : Type 0 where
  no_reply : Bytes → EngineReply
  answered : ℕ → List Bytes → Option Bytes → EngineReply

abbrev newline : Bytes
newline = 10 ∷ []

-- What a message writes.
abbrev pub message_text : Message → Bytes
message_text m =
    if not (is_empty m.stream)
    then m.stream
    else if not (is_empty m.status)
    then m.status ++ newline
    else []

abbrev pub prepend : Bytes → Bytes × Option PublishError → Bytes × Option PublishError
prepend s (out, e) = (s ++ out, e)

-- `decode_message` is the decoder of encoding/json for a line.
module _ (decode_message : Bytes → Option Message) where
  -- `copyDockerStream`: what is written, and the error. Nothing after an error is written.
  unfoldable pub copy_docker_stream : List Bytes → Option Bytes → Bytes × Option PublishError
  copy_docker_stream [] none = ([], none)
  copy_docker_stream [] (some e) = ([], some (stream_error e))
  copy_docker_stream (line ∷ lines) end =
      let rest = copy_docker_stream lines end in
      elim (decode_message line) [
        | none ↦ prepend (line ++ newline) rest
        | some m ↦
            if not (is_empty m.error)
            then ([], some (stream_error m.error))
            else prepend (message_text m) rest
      ]

  -- What `build` and `push` make of an answer.
  unfoldable pub read_answer : EngineReply → Bytes × Option PublishError
  unfolding copy_docker_stream
  read_answer (no_reply e) = ([], some (request_failed e))
  read_answer (answered status lines end) =
      if leb 400 status then ([], some (engine_status status)) else copy_docker_stream lines end

abbrev pub or_default : Bytes → Bytes → Bytes
or_default s default = if is_empty s then default else s

-- The three checks of the configuration.
abbrev pub refusal : PublishConfig → Option PublishError
refusal cfg =
    if is_empty cfg.image
    then some image_required
    else if is_empty cfg.token
    then some token_required
    else if not (has_prefix cfg.image (codes "registry.fly.io/"))
    then some (foreign_image cfg.image)
    else none

-- What a run has done: the requests to the engine, the latest first, and what it has written.
pub record Run : Type 0 where
  pub calls : List EngineCall
  pub output : Bytes

-- `engine` answers a request behind those before it; `tar_context` is `tarBuildContext`, the tar
-- archive of a directory or an error of the file system; `auth_header` is `registryAuthHeader`.
module _ (decode_message : Bytes → Option Message)
    (engine : List EngineCall → EngineCall → EngineReply) (tar_context : Bytes → Option Bytes)
    (auth_header : Bytes → Bytes) where
  -- One request, and its answer written to the output.
  unfoldable pub call_engine : EngineCall → Run → Run × Option PublishError
  call_engine call run =
      let (text, e) = read_answer decode_message (engine run.calls call) in
      (record { calls = call ∷ run.calls; output = run.output ++ text }, e)

  -- The requests of `build` and `push`.
  abbrev pub build_of : PublishConfig → Bytes → EngineCall
  build_of cfg archive =
      build_call cfg.image (or_default cfg.dockerfile (codes "Dockerfile")) archive

  abbrev pub push_of : PublishConfig → EngineCall
  push_of cfg =
      push_call (split_image_tag cfg.image).0 (split_image_tag cfg.image).1 (auth_header cfg.token)

  -- `(*DockerPublisher).BuildAndPush`
  unfoldable pub build_and_push : PublishConfig → Run → Run × Option PublishError
  build_and_push cfg run = elim (refusal cfg) [
    | some e ↦ (run, some e)
    | none ↦ elim (tar_context (or_default cfg.context_dir (codes "."))) [
      | none ↦ (run, some (no_context (or_default cfg.context_dir (codes "."))))
      | some archive ↦
          let (built, failure) = call_engine (build_of cfg archive) run in
          elim failure [ some e ↦ (built, some e) | none ↦ call_engine (push_of cfg) built ]
    ]
  ]

-- The socket that the transport of a `DockerPublisher` dials.
pub record DockerPublisher : Type 0 where
  pub socket_path : Bytes

-- `NewDockerPublisher`; `docker_host_env` is `os.Getenv("DOCKER_HOST")`.
unfoldable pub new_docker_publisher : Bytes → Bytes → Result PublishError DockerPublisher
new_docker_publisher docker_host_env given =
    let host =
      or_default (or_default given docker_host_env) (codes "unix:///var/run/docker.sock") in
    if not (has_prefix host (codes "unix://"))
    then err (unsupported_host host)
    else ok (record { socket_path = drop (length (codes "unix://")) host })

-- `registryAuthHeader`; `marshal` is `json.Marshal` of a map of strings.
pub registry_auth_header : (List (Bytes × Bytes) → Bytes) → Bytes → Bytes
registry_auth_header marshal token = encode_base64_url (
    marshal (
      (codes "username", codes "x")
      ∷ (codes "password", token)
      ∷ (codes "serveraddress", codes "registry.fly.io")
      ∷ []))
