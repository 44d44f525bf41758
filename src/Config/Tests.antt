-- ===== src/Config/Tests.antt =====
-- A few configuration files that import each other, and the theorems about the loader at them.
use agentforge_py.Prelude.{
  ℕ, none, some, List, [], ◌∷◌, String, ◌≡◌, refl, ok, err, ◌==◌, if◌then◌else◌, member,
  module_error,
}
use agentforge_py.Chat.Texts.{is_space}
use agentforge_py.Config.Tree.{
  Text, Tree, text, null, scalar, sequence, mapping, Trees, no_trees, tree, Fields, no_fields,
  field, find, set, IsDistinct, IsLeaf, get_path,
}
use agentforge_py.Config.Merge.{deep_merge, find-deep_merge, merged}
use agentforge_py.Config.Interp.{Environ, interp, interp_tree, interp_fields, interp_from, dollar}
use agentforge_py.Config.Interp.RoundTrip.{escape_tree, interp_tree-escape}
use agentforge_py.Config.Overrides.{parse_overrides, override_loop, apply_override, assign}
use agentforge_py.Config.Imports.{FileSystem, imports_key, load_file, import_loop, import_path}
use agentforge_py.Config.Imports.Finite.{IsAnswered, load_file-IsAnswered}
use agentforge_py.Config.Imports.Directive.{load_file-no_imports}
use agentforge_py.Config.Load.{
  Loader, resolve_path, layered, file_settings, with_overrides, apply_log_level, finish,
  load_config, ValidatedWith, overrides-win,
}

abbrev environ : Environ
environ name = none

-- `a` imports `b`, and `b` imports `a`.
abbrev both : List String
both = "a" ∷ "b" ∷ []

abbrev cycle : FileSystem
cycle = record {
  resolve = λ p. p;
  exists = λ p. member p both;
  read =
      λ p. ok (mapping (field imports_key (sequence (tree (text (b'x' ∷ [])) no_trees)) no_fields));
  beside = λ p entry. if p == "a" then "b" else "a";
}

load_file-IsAnswered_example : IsAnswered (load_file cycle environ 3 [] "a")
load_file-IsAnswered_example = load_file-IsAnswered cycle environ both (λ p h. h) "a" refl

load_file-cycle : load_file cycle environ 3 [] "a" ≡ some (err module_error)
unfolding load_file import_loop import_path find interp interp_from
load_file-cycle = refl

abbrev name_of : ℕ → Text
name_of c = c ∷ []

-- A file without imports, and one that imports it.
abbrev tree_of_files : FileSystem
tree_of_files = record {
  resolve = λ p. p;
  exists = λ p. member p both;
  read = λ p.
      if p == "a"
      then ok (
          mapping (
            field imports_key (sequence (tree (text (b'x' ∷ [])) no_trees))
              (field (name_of b'k') null no_fields)))
      else ok (mapping (field (name_of b'j') null no_fields));
  beside = λ p entry. "b";
}

abbrev both_keys : Fields
both_keys = field (name_of b'j') null (field (name_of b'k') null no_fields)

load_file-no_imports_example : find imports_key both_keys ≡ none
unfolding load_file import_loop import_path find interp interp_from
    package.agentforge_py.Config.Tree.remove deep_merge set
load_file-no_imports_example = load_file-no_imports tree_of_files environ 3 [] "a" both_keys refl

abbrev prices : Tree
prices = mapping (field (name_of b'p') (text (dollar ∷ b'5' ∷ dollar ∷ dollar ∷ [])) no_fields)

interp_tree-escape_example : interp_tree environ (escape_tree prices) ≡ ok prices
interp_tree-escape_example = interp_tree-escape environ prices

find-deep_merge_example :
    find (name_of b'k') (deep_merge (field (name_of b'k') null no_fields) both_keys)
    ≡ merged
        (find (name_of b'k') (field (name_of b'k') null no_fields))
        (find (name_of b'k') both_keys)
unfolding find IsDistinct
find-deep_merge_example =
    find-deep_merge (name_of b'k') (field (name_of b'k') null no_fields) both_keys
      (refl, (tt, (refl, (tt, tt))))

abbrev override : Text
override = b'a' ∷ b'.' ∷ b'b' ∷ b'=' ∷ b'1' ∷ []

abbrev loader : Loader Fields
loader = record {
  fs = tree_of_files;
  environ = environ;
  safe_load = λ raw. some (text raw);
  path_of = λ t. "a";
  default_path = "a";
  overlay = λ p e. "b";
  validate = λ d. ok d;
  with_level = λ level c. c;
}

abbrev overridden : Fields
overridden =
    field (name_of b'a') (mapping (field (name_of b'b') (text (b'1' ∷ [])) no_fields)) no_fields

-- The file and its import with the override merged onto them.
abbrev overridden_file : Fields
overridden_file = field (name_of b'j') null (field (name_of b'k') null overridden)

overrides-win_example :
    ValidatedWith loader overridden_file (name_of b'a' ∷ name_of b'b' ∷ []) (text (b'1' ∷ []))
unfolding load_config file_settings resolve_path layered finish apply_log_level load_file
    import_loop import_path package.agentforge_py.Config.Tree.remove interp_fields interp_tree
    interp interp_from with_overrides parse_overrides override_loop apply_override assign set find
    deep_merge IsDistinct is_space
overrides-win_example =
    overrides-win loader 3 (some "a") none (override ∷ []) overridden
      (name_of b'a' ∷ name_of b'b' ∷ []) (text (b'1' ∷ [])) overridden_file refl refl
      (refl, ((refl, (tt, tt)), tt)) tt refl
