-- ===== src/Config/Imports.antt =====
-- `_load_file_with_imports` of packages/agentforge-core/src/agentforge_core/config/loader.py. The file
-- system is a parameter: paths are names, `resolve` makes them absolute, and `read` is the YAML of a
-- file, as a tree. The recursion is on fuel, and `none` is that it ran out.
pub mod Finite
pub mod Directive
use agentforge_py.Prelude.{
  ℕ, zero, suc, Bool, true, false, not, Option, none, some, List, [], ◌∷◌, String, if◌then◌else◌,
  member, Error, Result, ok, err, ◌>>=◌, module_error,
}
use agentforge_py.Config.Tree.{
  Text, Tree, text, null, scalar, sequence, mapping, Trees, no_trees, tree, Fields, no_fields,
  field, find, remove,
}
use agentforge_py.Config.Merge.{deep_merge}
use agentforge_py.Config.Interp.{Environ, interp}

-- The files: `beside file entry` is the path of an import of a file, relative to its folder.
pub record FileSystem : Type 0 where
  pub resolve : String → String
  pub exists : String → Bool
  pub read : String → Result Tree
  pub beside : String → Text → String

-- `b"imports"`
abbrev pub imports_key : Text
imports_key = 0x69 ∷ 0x6d ∷ 0x70 ∷ 0x6f ∷ 0x72 ∷ 0x74 ∷ 0x73 ∷ []

-- `_read_yaml`: `safe_load(fh) or {}`, and a mapping at the top.
abbrev pub top_mapping : Tree → Result Fields
top_mapping (mapping d) = ok d
top_mapping null = ok no_fields
top_mapping (scalar b s) = if b then err module_error else ok no_fields
top_mapping (text []) = ok no_fields
top_mapping (text (c ∷ cs)) = err module_error
top_mapping (sequence no_trees) = ok no_fields
top_mapping (sequence (tree t ts)) = err module_error

abbrev pub read_yaml : FileSystem → String → Result Fields
read_yaml fs path = fs.read path >>= top_mapping

-- The answer of a recursion that may run out of fuel.
abbrev pub Answer : Type 0
Answer = Option (Result Fields)

module _ (fs : FileSystem) (environ : Environ) where
  -- The path of an entry of `imports:`, if it is a text, can be interpolated and is there.
  unfoldable pub import_path : String → Tree → Result String
  import_path path (text entry) = do
    name ← interp environ entry
    (if fs.exists (fs.beside path name) then ok (fs.beside path name) else err module_error)
  import_path path null = err module_error
  import_path path (scalar b s) = err module_error
  import_path path (sequence ts) = err module_error
  import_path path (mapping d) = err module_error

  -- What a file's own keys are merged onto.
  abbrev pub onto : Fields → Answer → Answer
  onto raw none = none
  onto raw (some (err e)) = some (err e)
  onto raw (some (ok merged)) = some (ok (deep_merge merged raw))

  abbrev pub and_merge : Answer → (Fields → Answer) → Answer
  and_merge none next = none
  and_merge (some (err e)) next = some (err e)
  and_merge (some (ok imported)) next = next imported

  -- The loop over the imports, for `load`, the loader of one file.
  unfoldable pub import_loop : (String → Answer) → String → Trees → Fields → Answer
  import_loop load path no_trees merged = some (ok merged)
  import_loop load path (tree entry entries) merged = elim (import_path path entry) [
    | err e ↦ some (err e)
    | ok file ↦
        and_merge (load file)
          (λ imported. import_loop load path entries (deep_merge merged imported))
  ]

  -- The directive of a file that was read.
  abbrev pub with_imports : (String → Answer) → String → Fields → Option Tree → Answer
  with_imports load path raw none = some (ok raw)
  with_imports load path raw (some (sequence entries)) =
      onto raw (import_loop load path entries no_fields)
  with_imports load path raw (some (text t)) = some (err module_error)
  with_imports load path raw (some (mapping d)) = some (err module_error)
  with_imports load path raw (some null) = some (ok raw)
  with_imports load path raw (some (scalar b s)) = some (err module_error)

  -- A file that was read, or the exception.
  abbrev pub loaded : (String → Answer) → String → Result Fields → Answer
  loaded load path (err e) = some (err e)
  loaded load path (ok raw) = with_imports load path (remove imports_key raw) (find imports_key raw)

  unfoldable pub load_file : ℕ → List String → String → Answer
  load_file zero visiting path = none
  load_file (suc fuel) visiting path =
      let load = load_file fuel (fs.resolve path ∷ visiting) in
      if member (fs.resolve path) visiting
      then some (err module_error)
      else loaded load path (read_yaml fs path)
