-- ===== src/ContainerImage/Context/Pruning.antt =====
-- The build context is the directory without the entries that are skipped.
use turnfly.Prelude.{
  ◌≡◌, refl, ap, ap₂, false, none, some, List, [], ◌∷◌, inl, inr, Bool-cases, if◌then◌else◌,
}
use turnfly.Text.{Bytes}
use turnfly.Result.{Result, ok, err, ◌>>=◌}
use turnfly.ContainerImage.{should_skip_context_path}
use turnfly.ContainerImage.Context.{
  Node, Entries, file, unreadable, special, no_info, directory, unlisted, end, entry, Member,
  rel_path, append_members, walk_entries, walk_node, tar_build_context,
}

mutual
  -- The entries with everything below a skipped one cut off.
  pub prune : Bytes → Entries → Entries
  prune dir end = end
  prune dir (entry name node rest) =
      if should_skip_context_path (rel_path dir name) name
      then prune dir rest
      else entry name (prune_node (rel_path dir name) node) (prune dir rest)

  pub prune_node : Bytes → Node → Node
  prune_node rel (directory es) = directory (prune rel es)
  prune_node rel (file text) = file text
  prune_node rel (unreadable message) = unreadable message
  prune_node rel special = special
  prune_node rel (no_info message) = no_info message
  prune_node rel (unlisted message) = unlisted message

-- Everything in a directory, with no entry skipped.
mutual
  pub all_entries : Bytes → Entries → Result Bytes (List Member)
  all_entries dir end = ok []
  all_entries dir (entry name node rest) =
      append_members (all_of_node (rel_path dir name) node) (all_entries dir rest)

  pub all_of_node : Bytes → Node → Result Bytes (List Member)
  all_of_node rel (directory es) =
      append_members (ok (record { name = rel; contents = none } ∷ [])) (all_entries rel es)
  all_of_node rel (file text) = ok (record { name = rel; contents = some text } ∷ [])
  all_of_node rel (unreadable message) = err message
  all_of_node rel special = ok []
  all_of_node rel (no_info message) = err message
  all_of_node rel (unlisted message) = err message

mutual
  unfolding walk_entries walk_node prune prune_node all_entries all_of_node

  walk_entries_case :
      (dir : Bytes) (es : Entries) → walk_entries dir es ≡ all_entries dir (prune dir es)
  walk_entries_case dir end = refl
  walk_entries_case dir (entry name node rest) =
      elim (Bool-cases (should_skip_context_path (rel_path dir name) name)) [
        | inl e ↦ rw e (walk_entries_case dir rest)
        | inr e ↦ rw e (
            ap₂ append_members (walk_node_case (rel_path dir name) node)
              (walk_entries_case dir rest))
      ]

  walk_node_case :
      (rel : Bytes) (node : Node) → walk_node rel node ≡ all_of_node rel (prune_node rel node)
  walk_node_case rel (directory es) =
      ap (append_members (ok (record { name = rel; contents = none } ∷ [])))
        (walk_entries_case rel es)
  walk_node_case rel (file text) = refl
  walk_node_case rel (unreadable message) = refl
  walk_node_case rel special = refl
  walk_node_case rel (no_info message) = refl
  walk_node_case rel (unlisted message) = refl

-- No entry at any depth is one that is skipped.
mutual
  pub NothingSkipped : Bytes → Entries → Type 0
  NothingSkipped dir end = Unit
  NothingSkipped dir (entry name node rest) =
      (should_skip_context_path (rel_path dir name) name ≡ false)
      × NothingSkippedBelow (rel_path dir name) node
      × NothingSkipped dir rest

  pub NothingSkippedBelow : Bytes → Node → Type 0
  NothingSkippedBelow rel (directory es) = NothingSkipped rel es
  NothingSkippedBelow rel (file text) = Unit
  NothingSkippedBelow rel (unreadable message) = Unit
  NothingSkippedBelow rel special = Unit
  NothingSkippedBelow rel (no_info message) = Unit
  NothingSkippedBelow rel (unlisted message) = Unit

mutual
  unfolding prune prune_node NothingSkipped NothingSkippedBelow

  prune_case : (dir : Bytes) (es : Entries) → NothingSkipped dir (prune dir es)
  prune_case dir end = tt
  prune_case dir (entry name node rest) =
      elim (Bool-cases (should_skip_context_path (rel_path dir name) name)) [
        | inl e ↦ rw e (prune_case dir rest)
        | inr e ↦ rw e (e, prune_node_case (rel_path dir name) node, prune_case dir rest)
      ]

  prune_node_case : (rel : Bytes) (node : Node) → NothingSkippedBelow rel (prune_node rel node)
  prune_node_case rel (directory es) = prune_case rel es
  prune_node_case rel (file text) = tt
  prune_node_case rel (unreadable message) = tt
  prune_node_case rel special = tt
  prune_node_case rel (no_info message) = tt
  prune_node_case rel (unlisted message) = tt

-- The archive of a directory has a header for every directory and every regular file of the tree
-- that is left when each skipped entry is cut off with all below it, in the order of the walk, and
-- in that tree nothing at any depth is skipped. An entry of it that cannot be read fails the whole
-- archive, and one that was cut off does not.
pub tar_build_context_lem :
    (lookup_root : Bytes → Result Bytes Entries) (write_tar : List Member → Bytes) (root : Bytes)
    (es : Entries)
    → lookup_root root ≡ ok es
    → (tar_build_context lookup_root write_tar root
        ≡ (all_entries [] (prune [] es) >>= λ ms. ok (write_tar ms)))
      × NothingSkipped [] (prune [] es)
unfolding tar_build_context
tar_build_context_lem lookup_root write_tar root es h =
    (rw (h, tar_build_context, walk_entries_case [] es), prune_case [] es)
