-- ===== src/Config/Imports/Finite.antt =====
-- The imports of a finite set of files end, also when they form a cycle.
use agentforge_py.Prelude.{
  ℕ, zero, suc, ◌≤◌, ◌<◌, true, false, not, ◌≡◌, refl, arith, subst, Option, none, some, List, [],
  ◌∷◌, String, ◌==◌, if◌then◌else◌, member, keep, length, length-keep-le, Result, ok, err,
  module_error, Bool-cases, Result-cases, eq_iff, eq_refl, eq_of_test, inl, inr,
}
use agentforge_py.Config.Tree.{
  Tree, text, null, scalar, sequence, mapping, Trees, no_trees, tree, Fields, no_fields, find,
  remove,
}
use agentforge_py.Config.Merge.{deep_merge}
use agentforge_py.Config.Interp.{Environ, interp}
use agentforge_py.Config.Imports.{
  FileSystem, imports_key, read_yaml, Answer, import_path, onto, and_merge, import_loop,
  with_imports, loaded, load_file,
}

-- The recursion has an answer: a mapping or an exception.
pub IsAnswered : Answer → Type 0
IsAnswered a = (r : Result Fields) × (a ≡ some r)

answered : (r : Result Fields) → IsAnswered (some r)
unfolding IsAnswered
answered r = (r, refl)

-- The files that are not being visited.
abbrev pub fresh : List String → List String → List String
fresh visiting files = keep (λ f. not (member f visiting)) files

length-fresh-le :
    (r : String) (visiting files : List String)
    → length (fresh (r ∷ visiting) files) ≤ length (fresh visiting files)
length-fresh-le r visiting [] = omega arith
length-fresh-le r visiting (f ∷ files) = ground (arith, length-fresh-le r visiting files)

-- Visiting one more of the files leaves fewer.
length-fresh-lt :
    (r : String) (visiting files : List String)
    → member r files ≡ true
    → member r visiting ≡ false
    → length (fresh (r ∷ visiting) files) < length (fresh visiting files)
length-fresh-lt r visiting [] here new = ground (arith, here)
length-fresh-lt r visiting (f ∷ files) here new = elim (Bool-cases (f == r)) [
  | inl same ↦
      rw (eq_of_test f r same) (ground (arith, length-fresh-le r visiting files, eq_refl r, new))
  | inr other ↦
      ground (arith, here, other, new, length-fresh-lt r visiting files, eq_iff r f, eq_iff f r)
]

same_path : (p q : String) → ok p ≡ ok q → p ≡ q
same_path p q h = cc h

module _ (fs : FileSystem) (environ : Environ) where
  only_existing :
      (p file : String)
      → (if fs.exists p then ok p else err module_error) ≡ ok file
      → fs.exists file ≡ true
  only_existing p file h = elim (Bool-cases (fs.exists p)) [
    | inl there ↦
        subst (λ (q : String). fs.exists q ≡ true) (same_path p file (rw there at h)) there
    | inr missing ↦ absurd (cc (rw missing at h))
  ]

  import_path-exists :
      (path : String) (entry : Tree) (file : String)
      → import_path fs environ path entry ≡ ok file
      → fs.exists file ≡ true
  unfolding import_path
  import_path-exists path (text t) file h = elim (Result-cases (interp environ t)) [
    | inl (name, read) ↦ only_existing (fs.beside path name) file (rw (read, import_path) at h)
    | inr (e, failed) ↦ absurd (cc (rw (failed, import_path) at h))
  ]
  import_path-exists path null file h = cc h
  import_path-exists path (scalar b s) file h = cc h
  import_path-exists path (sequence ts) file h = cc h
  import_path-exists path (mapping d) file h = cc h

  and_merge-IsAnswered :
      (a : Answer) (next : Fields → Answer)
      → IsAnswered a
      → ((d : Fields) → IsAnswered (next d))
      → IsAnswered (and_merge fs environ a next)
  unfolding IsAnswered
  and_merge-IsAnswered none next (r, h) rest = absurd (cc h)
  and_merge-IsAnswered (some (err e)) next done rest = (err e, refl)
  and_merge-IsAnswered (some (ok d)) next done rest = rest d

  onto-IsAnswered : (raw : Fields) (a : Answer) → IsAnswered a → IsAnswered (onto fs environ raw a)
  unfolding IsAnswered
  onto-IsAnswered raw none (r, h) = absurd (cc h)
  onto-IsAnswered raw (some (err e)) done = (err e, refl)
  onto-IsAnswered raw (some (ok d)) done = (ok (deep_merge d raw), refl)

  module _ (load : String → Answer)
      (loads : (p : String) → fs.exists p ≡ true → IsAnswered (load p)) where
    import_loop-IsAnswered :
        (path : String) (entries : Trees) (merged : Fields)
        → IsAnswered (import_loop fs environ load path entries merged)
    unfolding import_loop IsAnswered
    import_loop-IsAnswered path no_trees merged = (ok merged, refl)
    import_loop-IsAnswered path (tree entry entries) merged =
        elim (Result-cases (import_path fs environ path entry)) [
          | inl (file, found) ↦
              rw (found, import_loop)
                (and_merge-IsAnswered (load file) _
                  (loads file (import_path-exists path entry file found))
                  (λ imported. import_loop-IsAnswered path entries (deep_merge merged imported)))
          | inr (e, failed) ↦ rw (failed, import_loop) (err e, refl)
        ]

    with_imports-IsAnswered :
        (path : String) (raw : Fields) (directive : Option Tree)
        → IsAnswered (with_imports fs environ load path raw directive)
    unfolding IsAnswered
    with_imports-IsAnswered path raw none = (ok raw, refl)
    with_imports-IsAnswered path raw (some null) = (ok raw, refl)
    with_imports-IsAnswered path raw (some (text t)) = (err module_error, refl)
    with_imports-IsAnswered path raw (some (scalar b s)) = (err module_error, refl)
    with_imports-IsAnswered path raw (some (mapping d)) = (err module_error, refl)
    with_imports-IsAnswered path raw (some (sequence entries)) =
        onto-IsAnswered raw _ (import_loop-IsAnswered path entries no_fields)

    loaded-IsAnswered :
        (path : String) (r : Result Fields) → IsAnswered (loaded fs environ load path r)
    unfolding IsAnswered
    loaded-IsAnswered path (err e) = (err e, refl)
    loaded-IsAnswered path (ok raw) =
        with_imports-IsAnswered path (remove imports_key raw) (find imports_key raw)

  module _ (files : List String)
      (closed : (p : String) → fs.exists p ≡ true → member (fs.resolve p) files ≡ true) where
    load_file_on_fuel :
        (fuel : ℕ) (visiting : List String) (path : String)
        → member (fs.resolve path) files ≡ true
        → length (fresh visiting files) < fuel
        → IsAnswered (load_file fs environ fuel visiting path)
    unfolding load_file
    load_file_on_fuel zero visiting path here enough = absurd (omega (arith, enough))
    load_file_on_fuel (suc fuel) visiting path here enough =
        elim (Bool-cases (member (fs.resolve path) visiting)) [
          | inl cycle ↦ rw (cycle, load_file) (answered (err module_error))
          | inr new ↦
              rw (new, load_file)
                (loaded-IsAnswered (load_file fs environ fuel (fs.resolve path ∷ visiting))
                  (λ p there.
                    load_file_on_fuel fuel (fs.resolve path ∷ visiting) p (closed p there) (
                      omega
                        (arith, enough, length-fresh-lt (fs.resolve path) visiting files here new)))
                  path (read_yaml fs path))
        ]

    -- If every file that exists is one of a finite list, the loader answers, with a mapping or an
    -- exception, on one more step than there are files: imports cannot recurse for ever.
    pub load_file-IsAnswered :
        (path : String)
        → fs.exists path ≡ true
        → IsAnswered (load_file fs environ (suc (length files)) [] path)
    load_file-IsAnswered path there =
        load_file_on_fuel (suc (length files)) [] path (closed path there)
          (omega (arith, length-keep-le (λ f. not (member f [])) files))
