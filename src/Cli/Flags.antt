-- ===== src/Cli/Flags.antt =====
-- What the `--env` flags set.
use turnfly.Prelude.{
  ◌≡◌, ◌↔◌, subst, false, refl, ◌∙◌, ap, Option, none, some, List, [], ◌∷◌, ◌++◌, inl, inr,
  Option-cases, arith, if◌then◌else◌,
}
use turnfly.Text.{Bytes, beq, is_empty}
use turnfly.Text.Strings.{split_first}
use turnfly.Text.Splitting.{Lacks, split_first_complete, split_first_sound}
use turnfly.Result.{ok, err}
use turnfly.Map
use turnfly.Map.{Map, IsMap}
use turnfly.Map.Laws.{get-empty, get-put, empty-IsMap, put-IsMap}
use turnfly.Cli.{invalid_env, parse_assignment, add_env_flags, parse_env_flags}

-- The first flag that is not KEY=VALUE.
pub first_invalid : List Bytes → Option Bytes
first_invalid [] = none
first_invalid (e ∷ es) = elim (parse_assignment e) [ none ↦ some e | some kv ↦ first_invalid es ]

-- The value of the last flag for a key, or what was there before.
unfoldable pub last_value : Bytes → Option Bytes → List Bytes → Option Bytes
last_value key before [] = before
last_value key before (e ∷ es) = elim (parse_assignment e) [
  | none ↦ last_value key before es
  | some (k, v) ↦ last_value key (if beq k key then some v else before) es
]

add_env_flags-invalid :
    (env : Map Bytes) (flags : List Bytes) (bad : Bytes)
    → first_invalid flags ≡ some bad
    → add_env_flags env flags ≡ err (invalid_env bad)
unfolding add_env_flags first_invalid
add_env_flags-invalid env [] bad h = absurd (ground (arith, h))
add_env_flags-invalid env (e ∷ es) bad h = elim (Option-cases (parse_assignment e)) [
  | inl p ↦ ground (arith, p, h)
  | inr ((k, v), p) ↦ ground (arith, p, h, add_env_flags-invalid (Map.put env k v) es bad)
]

-- An environment that the flags make of another one.
abbrev Sets : Map Bytes → List Bytes → Type 0
Sets env flags =
    (m : Map Bytes) × (add_env_flags env flags ≡ ok m)
    × IsMap m
    × ((key : Bytes) → Map.get m key ≡ last_value key (Map.get env key) flags)

add_env_flags-valid :
    (env : Map Bytes) (flags : List Bytes) → IsMap env → first_invalid flags ≡ none → Sets env flags
unfolding add_env_flags first_invalid last_value
add_env_flags-valid env [] i h = (env, refl, i, λ key. refl)
add_env_flags-valid env (e ∷ es) i h = elim (Option-cases (parse_assignment e)) [
  | inl p ↦ absurd (ground (arith, p, h))
  | inr ((k, v), p) ↦
      let (m, sets, one, found) =
        add_env_flags-valid (Map.put env k v) es (put-IsMap env k v i) (ground (arith, p, h)) in
      (
        m,
        rw (p, add_env_flags) sets,
        one,
        λ key. rw (p, last_value) (found key ∙ ap (λ o. last_value key o es) (get-put env k key v)),
      )
]

-- A flag that sets a key to a value: a key that is not empty and has no `=`, `=`, and the value.
pub record Assigns (e key value : Bytes) : Type 0 where
  pub spelling : e ≡ key ++ (b'=' ∷ value)
  pub first : Lacks b'=' key
  pub named : is_empty key ≡ false

parse_assignment_sound : (e k v : Bytes) → parse_assignment e ≡ some (k, v) → Assigns e k v
unfolding parse_assignment
parse_assignment_sound e k v h = elim (Option-cases (split_first b'=' e)) [
  | inl f ↦ absurd (ground (arith, f, h))
  | inr ((k', v'), f) ↦
      let (spelling, first) = split_first_sound b'=' e k' v' f in
      let named : is_empty k' ≡ false = ground (arith, f, h) in
      let same : (k', v') ≡ (k, v) = ground (arith, f, h) in
      subst (λ (kv : Bytes × Bytes). Assigns e kv.0 kv.1) same
        (record { spelling = spelling; first = first; named = named })
]

parse_assignment_complete : (e k v : Bytes) → Assigns e k v → parse_assignment e ≡ some (k, v)
unfolding parse_assignment
parse_assignment_complete e k v a =
    ground (arith, a.spelling, split_first_complete b'=' k v a.first, a.named)

-- The result of `parseEnvFlags`, by the first flag that is not KEY=VALUE.
abbrev pub Parsed : List Bytes → Option Bytes → Type 0
Parsed flags (some bad) = parse_env_flags flags ≡ err (invalid_env bad)
Parsed flags none =
    (m : Map Bytes) × (parse_env_flags flags ≡ ok m)
    × IsMap m
    × ((key : Bytes) → Map.get m key ≡ last_value key none flags)

parse_env_flags-Parsed : (flags : List Bytes) → Parsed flags (first_invalid flags)
unfolding parse_env_flags
parse_env_flags-Parsed flags = by_first (first_invalid flags) refl
  where
    by_first : (o : Option Bytes) → first_invalid flags ≡ o → Parsed flags o
    by_first (some bad) h = add_env_flags-invalid Map.empty flags bad h
    by_first none h =
        let (m, sets, one, found) =
          add_env_flags-valid Map.empty flags (empty-IsMap {V = Bytes}) h in
        (
          m,
          sets,
          one,
          λ key. found key ∙ ap (λ o. last_value key o flags) (get-empty {V = Bytes} key),
        )

-- The flags `--env` fail with the first of them that is not an assignment. If there is none, each
-- key has the value of the last flag that names it, and no other key has a value. A flag is an
-- assignment of a value to a key exactly if it is the key, which is not empty and has no `=`, then
-- `=`, then the value.
pub parse_env_flags_lem :
    (flags : List Bytes)
    → Parsed flags (first_invalid flags)
      × ((e k v : Bytes) → (parse_assignment e ≡ some (k, v)) ↔ Assigns e k v)
parse_env_flags_lem flags = (
  parse_env_flags-Parsed flags,
  λ e k v. (parse_assignment_sound e k v, parse_assignment_complete e k v),
)
