-- ===== src/ContainerImage/Tests.antt =====
-- Images, and a publication against a small engine.
use turnfly.Prelude.{◌≡◌, refl, ◌⊎◌, true, none, some, List, [], ◌∷◌, ◌++◌}
use turnfly.Text.{codes, beq}
use turnfly.ContainerImage.{
  unsupported_host, new_docker_publisher, PublishConfig, EngineCall, EngineReply, answered, Run,
  split_image_tag, should_skip_context_path,
}
use turnfly.ContainerImage.Tags.{split_image_tag_lem}
use turnfly.Result.{ok, err, ◌>>=◌}
use turnfly.ContainerImage.Context.{
  Entries, unreadable, directory, file, entry, end, walk_entries, tar_build_context,
}
use turnfly.ContainerImage.Context.Pruning.{
  prune, all_entries, NothingSkipped, tar_build_context_lem,
}
use turnfly.ContainerImage.Publishing.{Refuses, BuildFails, Pushes, build_and_push_lem}

-- The directory of the command is left out of the build context: it has the name of the binary.
skips_command : should_skip_context_path (codes "cmd/turnfly") (codes "turnfly") ≡ true
unfolding should_skip_context_path beq
skips_command = refl

tag_split_off :
    (split_image_tag (codes "host:5000/app" ++ (58 ∷ codes "v1"))
      ≡ (codes "host:5000/app", codes "v1"))
    × (split_image_tag (codes "host:5000/app" ++ (47 ∷ codes "v1"))
        ≡ (codes "host:5000/app" ++ (47 ∷ codes "v1"), codes "latest"))
tag_split_off =
    split_image_tag_lem (codes "host:5000/app") (codes "v1") (refl, (refl, tt)) (refl, (refl, tt))

abbrev small_engine : List EngineCall → EngineCall → EngineReply
small_engine before call = answered 200 (codes "{}" ∷ []) none

abbrev publication : PublishConfig
publication = record {
  context_dir = [];
  dockerfile = [];
  image = codes "registry.fly.io/turn:v1";
  token = codes "t";
}

abbrev fresh : Run
fresh = record { calls = []; output = [] }

build_and_push_lem_example :
    Refuses (λ line. none) small_engine (λ dir. some []) (λ token. token) publication fresh
    ⊎ (BuildFails (λ line. none) small_engine (λ dir. some []) (λ token. token) publication fresh
        ⊎ Pushes (λ line. none) small_engine (λ dir. some []) (λ token. token) publication fresh)
build_and_push_lem_example =
    build_and_push_lem (λ line. none) small_engine (λ dir. some []) (λ token. token) publication
      fresh

-- A checkout with the main package and an unreadable file of secrets.
abbrev checkout : Entries
checkout = entry (codes ".env") (unreadable (codes "permission denied")) (
    entry (codes "cmd")
      (directory (
        entry (codes "turnfly")
          (directory (entry (codes "main.go") (file (codes "package main")) end)) end))
      (entry (codes "go.mod") (file (codes "module turnfly")) end))

tar_build_context_lem_example :
    (tar_build_context (λ dir. ok checkout) (λ ms. []) (codes ".")
      ≡ (all_entries [] (prune [] checkout) >>= λ ms. ok []))
    × NothingSkipped [] (prune [] checkout)
tar_build_context_lem_example =
    tar_build_context_lem (λ dir. ok checkout) (λ ms. []) (codes ".") checkout refl

-- The main package is not in the archive, and the secrets do not fail it.
archived :
    walk_entries [] checkout
    ≡ ok (
        record { name = codes "cmd"; contents = none }
        ∷ record { name = codes "go.mod"; contents = some (codes "module turnfly") }
        ∷ [])
unfolding walk_entries should_skip_context_path beq
archived = refl

tcp_host :
    new_docker_publisher (codes "tcp://10.0.0.1") []
    ≡ err (unsupported_host (codes "tcp://10.0.0.1"))
unfolding new_docker_publisher beq
tcp_host = refl
