-- ===== src/Config/Overrides.antt =====
-- `parse_overrides` of packages/agentforge-core/src/agentforge_core/config/loader.py. The YAML parser
-- is a parameter; `none` is its error.
use agentforge_py.Prelude.{
  Bool, true, false, Option, none, some, List, [], ◌∷◌, ◌≡◌, refl, eqb, any, if◌then◌else◌, Result,
  ok, err, ◌>>=◌, raise_if, module_error,
}
use agentforge_py.Chat.Texts.{lstrip, rstrip}
use agentforge_py.Config.Tree.{
  Text, Tree, text, null, scalar, sequence, mapping, Fields, no_fields, same_text, same_text_refl,
  find, set, find-set, get_path,
}

abbrev pub is_empty : Text → Bool
is_empty [] = true
is_empty (c ∷ cs) = false

-- `entry.partition("=")`; `none` when there is no such character.
abbrev pub partition : Text → Option (Text × Text)
partition [] = none
partition (c ∷ cs) =
    let rest = partition cs in
    if eqb c 0x3d then some ([], cs) else (elim rest [ none ↦ none | some p ↦ some (c ∷ p.0, p.1) ])

-- `path.split(".")`, as the first part and the others.
abbrev pub split_dots : Text → Text × List Text
split_dots [] = ([], [])
split_dots (c ∷ cs) =
    let (part, parts) = split_dots cs in
    if eqb c 0x2e then ([], part ∷ parts) else (c ∷ part, parts)

-- The mapping that the walk goes down into; anything else is replaced by an empty one.
abbrev pub below : Option Tree → Fields
below none = no_fields
below (some (mapping d)) = d
below (some (text t)) = no_fields
below (some null) = no_fields
below (some (scalar b s)) = no_fields
below (some (sequence ts)) = no_fields

-- The walk down `out`, and the assignment at the leaf.
unfoldable pub assign : Text → List Text → Tree → Fields → Fields
assign part [] v out = set part v out
assign part (next ∷ parts) v out =
    set part (mapping (assign next parts v (below (find part out)))) out

module _ (safe_load : Text → Option Tree) where
  abbrev value_of : Text → Result Tree
  value_of raw = elim (safe_load raw) [ none ↦ err module_error | some v ↦ ok v ]

  unfoldable pub apply_override : Text → Fields → Result Fields
  apply_override entry out = elim (partition entry) [
    | none ↦ err module_error
    | some (left, raw) ↦
        let path = lstrip (rstrip left) in
        let (part, parts) = split_dots path in
        do
          _ ← raise_if (is_empty path) module_error
          _ ← raise_if (any is_empty (part ∷ parts)) module_error
          v ← value_of raw
          ok (assign part parts v out)
  ]

  unfoldable pub override_loop : List Text → Fields → Result Fields
  override_loop [] out = ok out
  override_loop (entry ∷ entries) out = do
    out' ← apply_override entry out
    override_loop entries out'

  unfoldable pub parse_overrides : List Text → Result Fields
  parse_overrides entries = override_loop entries no_fields

-- The value that was assigned to a path stands at its end, and every path that starts with another
-- key has the value it had.
pub get_path-assign :
    (part : Text) (parts : List Text) (v : Tree) (out : Fields) (k : Text) (ks : List Text)
    → (get_path (part ∷ parts) (mapping (assign part parts v out)) ≡ some v)
      × (same_text part k ≡ false
          → get_path (k ∷ ks) (mapping (assign part parts v out)) ≡ get_path (k ∷ ks) (mapping out))
unfolding assign
get_path-assign part [] v out k ks = (
  rw (get_path, find-set part part v out, same_text_refl part) refl,
  λ other. rw (get_path, find-set part k v out, other) refl,
)
get_path-assign part (next ∷ parts) v out k ks =
    let inner = mapping (assign next parts v (below (find part out))) in
    (
      rw (get_path, find-set part part inner out, same_text_refl part)
          (get_path-assign next parts v (below (find part out)) k ks).0,
      λ other. rw (get_path, find-set part k inner out, other) refl,
    )
