-- ===== src/Config/Imports/Directive.antt =====
-- The `imports` directive does not reach what the loader returns.
use agentforge_py.Prelude.{
  ℕ, zero, suc, ◌≡◌, refl, subst, Option, none, some, List, ◌∷◌, String, member, Error, Result, ok,
  err, module_error, Bool-cases, Result-cases, inl, inr,
}
use agentforge_py.Config.Tree.{
  Tree, text, null, scalar, sequence, mapping, Trees, no_trees, tree, Fields, no_fields, find,
  remove, find-remove,
}
use agentforge_py.Config.Merge.{deep_merge, find-deep_merge-none}
use agentforge_py.Config.Interp.{Environ}
use agentforge_py.Config.Imports.{
  FileSystem, imports_key, read_yaml, Answer, import_path, onto, and_merge, import_loop,
  with_imports, loaded, load_file,
}

abbrev HasNone : Fields → Type 0
HasNone d = find imports_key d ≡ none

-- If the answer is a mapping, it has no directive.
abbrev IsClean : Answer → Type 0
IsClean a = (d : Fields) → a ≡ some (ok d) → HasNone d

fields_of : (a b : Fields) → some (ok a) ≡ some (ok b) → a ≡ b
fields_of a b h = cc h

ok-IsClean : (d : Fields) → HasNone d → IsClean (some (ok d))
ok-IsClean d none_there d' same = subst HasNone (fields_of d d' same) none_there

err-IsClean : (e : Error) → IsClean (some (err e))
err-IsClean e d same = absurd (cc same)

module _ (fs : FileSystem) (environ : Environ) where
  onto-IsClean :
      (raw : Fields) (a : Answer) → HasNone raw → IsClean a → IsClean (onto fs environ raw a)
  onto-IsClean raw none own rest = λ d same. absurd (cc same)
  onto-IsClean raw (some (err e)) own rest = err-IsClean e
  onto-IsClean raw (some (ok merged)) own rest =
      ok-IsClean (deep_merge merged raw)
        (find-deep_merge-none imports_key merged raw (rest merged refl) own)

  and_merge-IsClean :
      (a : Answer) (next : Fields → Answer)
      → IsClean a
      → ((d : Fields) → HasNone d → IsClean (next d))
      → IsClean (and_merge fs environ a next)
  and_merge-IsClean none next first rest = λ d same. absurd (cc same)
  and_merge-IsClean (some (err e)) next first rest = err-IsClean e
  and_merge-IsClean (some (ok d)) next first rest = rest d (first d refl)

  module _ (load : String → Answer) (loads : (p : String) → IsClean (load p)) where
    import_loop-IsClean :
        (path : String) (entries : Trees) (merged : Fields)
        → HasNone merged
        → IsClean (import_loop fs environ load path entries merged)
    unfolding import_loop
    import_loop-IsClean path no_trees merged own = ok-IsClean merged own
    import_loop-IsClean path (tree entry entries) merged own =
        elim (Result-cases (import_path fs environ path entry)) [
          | inl (file, found) ↦
              rw (found, import_loop)
                (and_merge-IsClean (load file) _ (loads file) (λ imported clean.
                  import_loop-IsClean path entries (deep_merge merged imported)
                    (find-deep_merge-none imports_key merged imported own clean)))
          | inr (e, failed) ↦ rw (failed, import_loop) (err-IsClean e)
        ]

    with_imports-IsClean :
        (path : String) (raw : Fields) (directive : Option Tree)
        → HasNone raw
        → IsClean (with_imports fs environ load path raw directive)
    unfolding find
    with_imports-IsClean path raw none own = ok-IsClean raw own
    with_imports-IsClean path raw (some null) own = ok-IsClean raw own
    with_imports-IsClean path raw (some (text t)) own = err-IsClean module_error
    with_imports-IsClean path raw (some (scalar b s)) own = err-IsClean module_error
    with_imports-IsClean path raw (some (mapping d)) own = err-IsClean module_error
    with_imports-IsClean path raw (some (sequence entries)) own =
        onto-IsClean raw _ own (import_loop-IsClean path entries no_fields refl)

    loaded-IsClean : (path : String) (r : Result Fields) → IsClean (loaded fs environ load path r)
    loaded-IsClean path (err e) = err-IsClean e
    loaded-IsClean path (ok raw) =
        with_imports-IsClean path (remove imports_key raw) (find imports_key raw)
          (find-remove imports_key imports_key raw)

  -- Whatever the files import, the mapping that the loader returns has no `imports` key.
  pub load_file-no_imports :
      (fuel : ℕ) (visiting : List String) (path : String) (d : Fields)
      → load_file fs environ fuel visiting path ≡ some (ok d)
      → find imports_key d ≡ none
  unfolding load_file
  load_file-no_imports zero visiting path = λ d h. absurd (cc h)
  load_file-no_imports (suc fuel) visiting path =
      elim (Bool-cases (member (fs.resolve path) visiting)) [
        | inl cycle ↦ rw (cycle, load_file) (err-IsClean module_error)
        | inr new ↦
            rw (new, load_file)
              (loaded-IsClean (load_file fs environ fuel (fs.resolve path ∷ visiting))
                (load_file-no_imports fuel (fs.resolve path ∷ visiting)) path (read_yaml fs path))
      ]
