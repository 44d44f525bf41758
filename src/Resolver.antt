-- ===== src/Resolver.antt =====
-- `Resolver` and the discovery of entry points, of
-- packages/agentforge-core/src/agentforge_core/resolver/resolve.py and discover.py beside it. A class
-- is its identity, a name; the installed entry points are a parameter. The registry and the module's
-- globals are one state; the listings, which only read, are left out.
pub mod Discovery
pub mod ModelString
mod Tests
use agentforge_py.Prelude.{
  ℕ, suc, Bool, true, false, not, ◌&&◌, Option, none, some, List, [], ◌∷◌, ◌++◌, String, ◌==◌, eqb,
  if◌then◌else◌, Error, Result, ok, err, module_error,
}

pub record Registered : Type 0 where
  pub category : String
  pub name : String
  pub cls : String

pub record ModuleInfo : Type 0 where
  pub category : String
  pub name : String
  pub package_name : Option String
  pub version : Option String
  pub cls_qualname : String

pub record Resolver : Type 0 where
  pub registry : List Registered
  pub discovered : Bool
  pub infos : List ModuleInfo

abbrev has_key : String → String → Registered → Bool
has_key c n r = (r.category == c) && (r.name == n)

-- `_registry.get((category, name))`
unfoldable pub find_class : String → String → List Registered → Option String
find_class c n [] = none
find_class c n (r ∷ rs) = let rest = find_class c n rs in if has_key c n r then some r.cls else rest

-- The registration, from the class that the key has.
abbrev pub registered :
    String → String → String → List Registered → Option String → Result (List Registered)
registered c n cls rs none = ok (rs ++ record { category = c; name = n; cls = cls } ∷ [])
registered c n cls rs (some old) = if old == cls then ok rs else err module_error

unfoldable pub register : String → String → String → List Registered → Result (List Registered)
register c n cls rs = registered c n cls rs (find_class c n rs)

-- What `ep.load()` gives.
pub data Loaded : Type 0 where
  a_class : String → Loaded
  no_class : Loaded
  failed : Loaded

-- An installed entry point. `category` is what follows `agentforge.` in its group, if it starts so.
-- Loading it imports modules, whose `@register` decorators write the registry too: `load` gives the
-- registry that it leaves.
pub record EntryPoint : Type 0 where
  pub category : Option String
  pub name : String
  pub load : List Registered → Loaded × List Registered
  pub dist : Option (String × String)
  pub qualname : String

abbrev dist_name : Option (String × String) → Option String
dist_name none = none
dist_name (some d) = some d.0

abbrev dist_version : Option (String × String) → Option String
dist_version none = none
dist_version (some d) = some d.1

abbrev info_of : String → EntryPoint → ModuleInfo
info_of c ep = record {
  category = c;
  name = ep.name;
  package_name = dist_name ep.dist;
  version = dist_version ep.dist;
  cls_qualname = ep.qualname;
}

-- The category of an entry point that is not skipped.
abbrev pub category_of : EntryPoint → Option String
category_of ep = elim ep.category [
  | none ↦ none
  | some c ↦ if c == "config_sections" then none else some c
]

-- `try: resolver.register(...)`: a conflict is skipped.
abbrev pub entered : String → EntryPoint → Result (List Registered) → ℕ × Resolver → ℕ × Resolver
entered c ep (err e) (n, r) = (n, r)
entered c ep (ok rs) (n, r) = (suc n, record r { registry = rs; infos = info_of c ep ∷ r.infos })

-- What was loaded, if it is a class, is registered.
abbrev pub enter_class : String → EntryPoint → Loaded → ℕ × Resolver → ℕ × Resolver
enter_class c ep (a_class cls) acc = entered c ep (register c ep.name cls acc.1.registry) acc
enter_class c ep no_class acc = acc
enter_class c ep failed acc = acc

abbrev pub add_entry : EntryPoint → Option String → ℕ × Resolver → ℕ × Resolver
add_entry ep none acc = acc
add_entry ep (some c) acc =
    let (loaded, rs) = ep.load acc.1.registry in
    enter_class c ep loaded (acc.0, record acc.1 { registry = rs })

unfoldable pub entry_loop : List EntryPoint → ℕ × Resolver → ℕ × Resolver
entry_loop [] acc = acc
entry_loop (ep ∷ eps) acc = entry_loop eps (add_entry ep (category_of ep) acc)

-- The number of entries registered, and the state. A newer info of a key goes in front.
unfoldable pub discover_entry_points : List EntryPoint → Bool → Resolver → ℕ × Resolver
discover_entry_points eps force r =
    if r.discovered && not force
    then (0, r)
    else (let (n, r') = entry_loop eps (0, r) in (n, record r' { discovered = true }))

unfoldable pub ensure_discovered : List EntryPoint → Resolver → Resolver
ensure_discovered eps r = if r.discovered then r else (discover_entry_points eps false r).1

abbrev pub class_or_error : Option String → Result String
class_or_error none = err module_error
class_or_error (some cls) = ok cls

unfoldable pub resolve : List EntryPoint → String → String → Resolver → Result String × Resolver
resolve eps c n r =
    let r' = ensure_discovered eps r in (class_or_error (find_class c n r'.registry), r')

unfoldable pub clear : Resolver → Resolver
clear r = record r { registry = [] }

unfoldable pub reset_discovery : Resolver → Resolver
reset_discovery r = record r { discovered = false; infos = [] }

-- `model_str.partition(":")` on the code points; `none` when there is no colon.
abbrev pub at_colon : List ℕ → Option (List ℕ × List ℕ)
at_colon [] = none
at_colon (c ∷ cs) =
    let rest = at_colon cs in
    if eqb c 0x3a then some ([], cs) else (elim rest [ none ↦ none | some p ↦ some (c ∷ p.0, p.1) ])

abbrev parts_of : Option (List ℕ × List ℕ) → Result (List ℕ × List ℕ)
parts_of none = err module_error
parts_of (some ([], m)) = err module_error
parts_of (some (p ∷ ps, [])) = err module_error
parts_of (some (p ∷ ps, m ∷ ms)) = ok (p ∷ ps, m ∷ ms)

unfoldable pub parse_model_string : List ℕ → Result (List ℕ × List ℕ)
parse_model_string t = parts_of (at_colon t)
