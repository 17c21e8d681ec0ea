-- ===== src/ContainerImage/Context.antt =====
-- internal/containerimage/docker.go: `tarBuildContext`, the walk over the build context.
pub mod Pruning
use turnfly.Prelude.{Option, none, some, List, [], ◌∷◌, ◌++◌, if◌then◌else◌}
use turnfly.Text.{Bytes}
use turnfly.Result.{Result, ok, err, ◌>>=◌}
use turnfly.ContainerImage.{should_skip_context_path}

-- What `filepath.WalkDir` meets below a directory, in its order: regular files, files that cannot
-- be read, files that are neither regular nor directories, entries without an `Info`, directories,
-- and directories that cannot be listed.
mutual
  pub data Node : Type 0 where
    file : Bytes → Node
    unreadable : Bytes → Node
    special : Node
    no_info : Bytes → Node
    directory : Entries → Node
    unlisted : Bytes → Node

  pub data Entries : Type 0 where
    end : Entries
    entry : Bytes → Node → Entries → Entries

-- A header of the archive: the name, and for a file its contents.
pub record Member : Type 0 where
  pub name : Bytes
  pub contents : Option Bytes

-- `filepath.Rel` of an entry of the directory that is named, itself relative to the root.
abbrev pub rel_path : Bytes → Bytes → Bytes
rel_path [] name = name
rel_path (c ∷ dir) name = (c ∷ dir) ++ (47 ∷ name)

abbrev pub append_members :
    Result Bytes (List Member) → Result Bytes (List Member) → Result Bytes (List Member)
append_members first rest = first >>= λ ms. rest >>= λ ns. ok (ms ++ ns)

-- The walk's function on the entries of a directory, and on one entry that is not skipped.
unfoldable mutual
  pub walk_entries : Bytes → Entries → Result Bytes (List Member)
  walk_entries dir end = ok []
  walk_entries dir (entry name node rest) =
      if should_skip_context_path (rel_path dir name) name
      then walk_entries dir rest
      else append_members (walk_node (rel_path dir name) node) (walk_entries dir rest)

  pub walk_node : Bytes → Node → Result Bytes (List Member)
  walk_node rel (file text) = ok (record { name = rel; contents = some text } ∷ [])
  walk_node rel (unreadable message) = err message
  walk_node rel special = ok []
  walk_node rel (no_info message) = err message
  walk_node rel (unlisted message) = err message
  walk_node rel (directory es) =
      append_members (ok (record { name = rel; contents = none } ∷ [])) (walk_entries rel es)

-- `tarBuildContext`: the root is looked up in the file system, and `write_tar` is package
-- archive/tar.
pub tar_build_context :
    (Bytes → Result Bytes Entries) → (List Member → Bytes) → Bytes → Result Bytes Bytes
unfolding walk_entries
tar_build_context lookup_root write_tar root =
    lookup_root root >>= λ es. walk_entries [] es >>= λ ms. ok (write_tar ms)
