-- ===== src/Config/Load.antt =====
-- `load_config`, `_resolve_path` and `_apply_env_log_level` of
-- packages/agentforge-core/src/agentforge_core/config/loader.py. The schema's validation is a
-- parameter, as are the file system, the environment and the YAML parser.
use agentforge_py.Prelude.{
  ℕ, Option, none, some, List, [], ◌∷◌, String, ◌≡◌, refl, sym, ◌∙◌, subst, if◌then◌else◌, Result,
  ok, err, Result-cases, inl, inr, ◌>>=◌,
}
use agentforge_py.Config.Tree.{Text, Tree, mapping, Fields, no_fields, IsDistinct, IsLeaf, get_path}
use agentforge_py.Config.Merge.{deep_merge, deep_merge-overlay}
use agentforge_py.Config.Interp.{Environ, interp_fields}
use agentforge_py.Config.Overrides.{is_empty, override_loop, parse_overrides}
use agentforge_py.Config.Imports.{FileSystem, Answer, and_merge, load_file}

-- `b"AGENTFORGE_CONFIG"`, `b"AGENTFORGE_ENV"` and `b"AGENTFORGE_LOG_LEVEL"`
abbrev pub config_variable : Text
config_variable =
    b'A' ∷ b'G' ∷ b'E' ∷ b'N' ∷ b'T' ∷ b'F' ∷ b'O' ∷ b'R' ∷ b'G' ∷ b'E' ∷ b'_' ∷ b'C' ∷ b'O' ∷ b'N'
    ∷ b'F' ∷ b'I' ∷ b'G' ∷ []

abbrev pub env_variable : Text
env_variable =
    b'A' ∷ b'G' ∷ b'E' ∷ b'N' ∷ b'T' ∷ b'F' ∷ b'O' ∷ b'R' ∷ b'G' ∷ b'E' ∷ b'_' ∷ b'E' ∷ b'N' ∷ b'V'
    ∷ []

abbrev pub level_variable : Text
level_variable =
    b'A' ∷ b'G' ∷ b'E' ∷ b'N' ∷ b'T' ∷ b'F' ∷ b'O' ∷ b'R' ∷ b'G' ∷ b'E' ∷ b'_' ∷ b'L' ∷ b'O' ∷ b'G'
    ∷ b'_' ∷ b'L' ∷ b'E' ∷ b'V' ∷ b'E' ∷ b'L' ∷ []

-- What the loader is given; `overlay p e` is the path of a file for an environment, beside the file.
pub record Loader (C : Type 0) : Type 0 where
  pub fs : FileSystem
  pub environ : Environ
  pub safe_load : Text → Option Tree
  pub path_of : Text → String
  pub default_path : String
  pub overlay : String → Text → String
  pub validate : Fields → Result C
  pub with_level : Text → C → C

-- A variable that is set and not empty.
abbrev pub set_variable : Option Text → Option Text
set_variable none = none
set_variable (some t) = if is_empty t then none else some t

module _ {C : Type 0} (l : Loader C) where
  unfoldable pub resolve_path : Option String → Option String
  resolve_path (some path) = some path
  resolve_path none = elim (set_variable (l.environ config_variable)) [
    | some t ↦ some (l.path_of t)
    | none ↦ (if l.fs.exists l.default_path then some l.default_path else none)
  ]

  -- `env if env is not None else os.environ.get("AGENTFORGE_ENV")`, when it is not empty.
  abbrev pub env_name : Option Text → Option Text
  env_name none = set_variable (l.environ env_variable)
  env_name (some e) = set_variable (some e)

  -- The file, and the file for the environment merged onto it.
  unfoldable pub layered : ℕ → Option Text → String → Answer
  layered fuel env path = and_merge l.fs l.environ (load_file l.fs l.environ fuel [] path) (λ base.
      elim (env_name env) [
        | none ↦ some (ok base)
        | some e ↦
            if l.fs.exists (l.overlay path e)
            then and_merge l.fs l.environ (load_file l.fs l.environ fuel [] (l.overlay path e))
                (λ top. some (ok (deep_merge base top)))
            else some (ok base)
      ])

  unfoldable pub file_settings : ℕ → Option String → Option Text → Answer
  file_settings fuel path env = elim (resolve_path path) [
    | none ↦ some (ok no_fields)
    | some p ↦ (if l.fs.exists p then layered fuel env p else some (ok no_fields))
  ]

  -- The interpolated settings with the overrides merged onto them.
  unfoldable pub with_overrides : List Text → Fields → Result Fields
  with_overrides [] settings = ok settings
  with_overrides (o ∷ os) settings = do
    top ← parse_overrides l.safe_load (o ∷ os)
    ok (deep_merge settings top)

  unfoldable pub apply_log_level : C → C
  apply_log_level c = elim (set_variable (l.environ level_variable)) [
    | none ↦ c
    | some level ↦ l.with_level level c
  ]

  unfoldable pub finish : List Text → Fields → Result C
  finish overrides merged = do
    interpolated ← interp_fields l.environ merged
    settings ← with_overrides overrides interpolated
    c ← l.validate settings
    ok (apply_log_level c)

  unfoldable pub load_config : ℕ → Option String → Option Text → List Text → Option (Result C)
  load_config fuel path env overrides = elim (file_settings fuel path env) [
    | none ↦ none
    | some (err e) ↦ some (err e)
    | some (ok merged) ↦ some (finish overrides merged)
  ]

  with_overrides_lem :
      (os : List Text) (settings : Fields)
      → with_overrides os settings
        ≡ (parse_overrides l.safe_load os >>= λ top. ok (deep_merge settings top))
  unfolding with_overrides parse_overrides override_loop deep_merge
  with_overrides_lem [] settings = refl
  with_overrides_lem (o ∷ os) settings = refl

  settled : (a b : Fields) → ok a ≡ ok b → a ≡ b
  settled a b h = cc h

  overridden :
      (os : List Text) (settings top final : Fields) (ks : List Text) (v : Tree)
      → with_overrides os settings ≡ ok final
      → parse_overrides l.safe_load os ≡ ok top
      → IsDistinct top
      → IsLeaf v
      → get_path ks (mapping top) ≡ some v
      → get_path ks (mapping final) ≡ some v
  overridden os settings top final ks v merged parsed distinct leaf there =
      let same : deep_merge settings top ≡ final =
        settled (deep_merge settings top) final
          (sym (with_overrides_lem os settings ∙ rw parsed refl) ∙ merged) in
      subst (λ (d : Fields). get_path ks (mapping d) ≡ some v) same
        (deep_merge-overlay ks settings top v distinct leaf there)

  -- The settings that were validated to give a configuration, with a value at the end of a path.
  abbrev pub ValidatedWith : C → List Text → Tree → Type 0
  ValidatedWith c ks v =
      (settings : Fields) × (checked : C) × (l.validate settings ≡ ok checked)
      × (apply_log_level checked ≡ c)
      × (get_path ks (mapping settings) ≡ some v)

  finish-overridden :
      (os : List Text) (merged top : Fields) (ks : List Text) (v : Tree) (c : C)
      → finish os merged ≡ ok c
      → parse_overrides l.safe_load os ≡ ok top
      → IsDistinct top
      → IsLeaf v
      → get_path ks (mapping top) ≡ some v
      → ValidatedWith c ks v
  unfolding finish
  finish-overridden os merged top ks v c done parsed distinct leaf there =
      elim (Result-cases (interp_fields l.environ merged)) [
        | inr (x, failed) ↦ absurd (cc (rw failed at done))
        | inl (settings, read) ↦ validated settings (rw read at done)
      ]
    where
      accepted :
          (final : Fields)
          → get_path ks (mapping final) ≡ some v
          → (l.validate final >>= λ checked. ok (apply_log_level checked)) ≡ ok c
          → ValidatedWith c ks v
      accepted final stands h = elim (Result-cases (l.validate final)) [
        | inr (x, failed) ↦ absurd (cc (rw failed at h))
        | inl (checked, valid) ↦
            let same : ok (apply_log_level checked) ≡ ok c = rw valid at h in
            (final, checked, valid, cc same, stands)
      ]

      validated :
          (settings : Fields)
          → (with_overrides os settings >>= λ final.
              l.validate final >>= λ checked. ok (apply_log_level checked))
            ≡ ok c
          → ValidatedWith c ks v
      validated settings h = elim (Result-cases (with_overrides os settings)) [
        | inr (x, failed) ↦ absurd (cc (rw failed at h))
        | inl (final, merged) ↦
            accepted final (overridden os settings top final ks v merged parsed distinct leaf there)
              (rw merged at h)
      ]

  -- When `load_config` returns a configuration, it is what the schema made of settings in which every
  -- value that the overrides put at the end of a path, and that is not a mapping, stands at the end of
  -- that path, whatever the files say; only the log level is applied after that. No key stands twice in
  -- the overrides.
  pub overrides-win :
      (fuel : ℕ) (path : Option String) (env : Option Text) (os : List Text) (top : Fields)
      (ks : List Text) (v : Tree) (c : C)
      → load_config fuel path env os ≡ some (ok c)
      → parse_overrides l.safe_load os ≡ ok top
      → IsDistinct top
      → IsLeaf v
      → get_path ks (mapping top) ≡ some v
      → ValidatedWith c ks v
  unfolding load_config
  overrides-win fuel path env os top ks v c loaded parsed distinct leaf there =
      answered (file_settings fuel path env) loaded
    where
      answered :
          (a : Answer)
          → (elim a [
            | none ↦ none
            | some (err e) ↦ some (err e)
            | some (ok merged) ↦ some (finish os merged)
          ])
            ≡ some (ok c)
          → ValidatedWith c ks v
      answered none h = absurd (cc h)
      answered (some (err e)) h = absurd (cc h)
      answered (some (ok merged)) h =
          finish-overridden os merged top ks v c (cc h) parsed distinct leaf there
