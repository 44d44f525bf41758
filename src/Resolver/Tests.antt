-- ===== src/Resolver/Tests.antt =====
-- Two packages that offer the same name, and the theorems at them.
use agentforge_py.Prelude.{
  false, none, some, List, [], ◌∷◌, String, ◌≡◌, refl, ok, err, module_error,
}
use agentforge_py.Resolver.{
  Registered, Resolver, EntryPoint, a_class, resolve, clear, find_class, register, entry_loop,
  parse_model_string,
}
use agentforge_py.Resolver.Discovery.{class_or, resolve-first}
use agentforge_py.Resolver.ModelString.{parse_model_string-join}

abbrev offering : String → EntryPoint
offering cls = record {
  category = some "memory";
  name = "sql";
  load = λ rs. (a_class cls, rs);
  dist = some ("agentforge-sql", "1.0");
  qualname = cls;
}

abbrev installed : List EntryPoint
installed = offering "First" ∷ offering "Second" ∷ []

abbrev empty : Resolver
empty = record { registry = []; discovered = false; infos = [] }

-- The registry when the second one is loaded.
abbrev loaded : List Registered
loaded = record { category = "memory"; name = "sql"; cls = "First" } ∷ []

resolve-first_example :
    ((resolve installed "memory" "sql" empty).0
      ≡ ok (class_or (class_or "Second" (find_class "memory" "sql" loaded)) none))
    × ((resolve installed "cache" "lru" (clear (resolve installed "memory" "sql" empty).1)).0
        ≡ err module_error)
unfolding find_class register entry_loop
resolve-first_example =
    resolve-first (offering "First" ∷ []) [] (offering "Second") "memory" "Second" "cache" "lru"
      empty refl ((λ c n cls rs h. h), ((λ c n cls rs h. h), tt)) refl refl

parse_model_string-join_example :
    parse_model_string (b'o' ∷ b':' ∷ b'm' ∷ b':' ∷ b'x' ∷ [])
    ≡ ok (b'o' ∷ [], b'm' ∷ b':' ∷ b'x' ∷ [])
parse_model_string-join_example = parse_model_string-join b'o' [] b'm' (b':' ∷ b'x' ∷ []) refl
