-- ===== src/Config/Merge.antt =====
-- `_deep_merge` of packages/agentforge-core/src/agentforge_core/config/loader.py.
use agentforge_py.Prelude.{
  true, false, Option, none, some, List, [], ◌∷◌, ◌≡◌, refl, ◌∙◌, arith, subst, Bool-cases,
  Option-cases, inl, inr,
}
use agentforge_py.Config.Tree.{
  Text, Tree, text, null, scalar, sequence, mapping, Fields, no_fields, field, same_text,
  text_of_test, find, set, find-set, IsDistinct, IsDistinctTree, get_path, IsLeaf,
}

unfoldable mutual
  -- The value of a key: two mappings are merged, anything else is replaced.
  pub merge_value : Option Tree → Tree → Tree
  merge_value old (text t) = text t
  merge_value old null = null
  merge_value old (scalar b s) = scalar b s
  merge_value old (sequence ts) = sequence ts
  merge_value none (mapping new) = mapping new
  merge_value (some (mapping base)) (mapping new) = mapping (deep_merge base new)
  merge_value (some (text t)) (mapping new) = mapping new
  merge_value (some null) (mapping new) = mapping new
  merge_value (some (scalar b s)) (mapping new) = mapping new
  merge_value (some (sequence ts)) (mapping new) = mapping new

  pub deep_merge : Fields → Fields → Fields
  deep_merge out no_fields = out
  deep_merge out (field k v rest) = deep_merge (set k (merge_value (find k out) v) out) rest

-- A value of the overlay over the value of the base: two mappings are merged, and anything else is
-- the overlay's.
abbrev pub over : Tree → Tree → Tree
over (mapping base) (mapping new) = mapping (deep_merge base new)
over old v = v

-- The value of a key from its values in each, where there is one.
abbrev pub merged : Option Tree → Option Tree → Option Tree
merged old none = old
merged none (some v) = some v
merged (some old) (some v) = some (over old v)

merge_value-merged : (old : Option Tree) (v : Tree) → some (merge_value old v) ≡ merged old (some v)
unfolding deep_merge
merge_value-merged none (mapping new) = refl
merge_value-merged none (text t) = refl
merge_value-merged none null = refl
merge_value-merged none (scalar b s) = refl
merge_value-merged none (sequence ts) = refl
merge_value-merged (some (mapping base)) (mapping new) = refl
merge_value-merged (some (text t)) (mapping new) = refl
merge_value-merged (some null) (mapping new) = refl
merge_value-merged (some (scalar b s)) (mapping new) = refl
merge_value-merged (some (sequence ts)) (mapping new) = refl
merge_value-merged (some (mapping base)) (text t) = refl
merge_value-merged (some (mapping base)) null = refl
merge_value-merged (some (mapping base)) (scalar b s) = refl
merge_value-merged (some (mapping base)) (sequence ts) = refl
merge_value-merged (some (text u)) (text t) = refl
merge_value-merged (some (text u)) null = refl
merge_value-merged (some (text u)) (scalar c r) = refl
merge_value-merged (some (text u)) (sequence ts) = refl
merge_value-merged (some null) (text t) = refl
merge_value-merged (some null) null = refl
merge_value-merged (some null) (scalar c r) = refl
merge_value-merged (some null) (sequence ts) = refl
merge_value-merged (some (scalar b s)) (text t) = refl
merge_value-merged (some (scalar b s)) null = refl
merge_value-merged (some (scalar b s)) (scalar c r) = refl
merge_value-merged (some (scalar b s)) (sequence ts) = refl
merge_value-merged (some (sequence us)) (text t) = refl
merge_value-merged (some (sequence us)) null = refl
merge_value-merged (some (sequence us)) (scalar c r) = refl
merge_value-merged (some (sequence us)) (sequence ts) = refl

-- When no key stands twice in the overlay, a key that only one of the two has keeps its value in the
-- merge. A key that both have has the merge of its two values where both are mappings, and the
-- overlay's value otherwise.
pub find-deep_merge :
    (k : Text) (base overlay : Fields)
    → IsDistinct overlay
    → find k (deep_merge base overlay) ≡ merged (find k base) (find k overlay)
unfolding deep_merge find IsDistinct
find-deep_merge k base no_fields distinct = refl
find-deep_merge k base (field j v rest) distinct =
    find-deep_merge k (set j (merge_value (find j base) v) base) rest distinct.1.1
    ∙ rw (find-set j k (merge_value (find j base) v) base) (elim (Bool-cases (same_text j k)) [
      | inl same ↦
          rw (same, ← text_of_test j k same, distinct.0) (merge_value-merged (find j base) v)
      | inr other ↦ rw other refl
    ])

find-IsDistinct :
    (k : Text) (d : Fields) (t : Tree) → IsDistinct d → find k d ≡ some t → IsDistinctTree t
unfolding find IsDistinct
find-IsDistinct k no_fields t distinct h = absurd (cc h)
find-IsDistinct k (field j v d) t distinct h = elim (Bool-cases (same_text j k)) [
  | inl same ↦ subst IsDistinctTree (found same) distinct.1.0
  | inr other ↦ find-IsDistinct k d t distinct.1.1 (missed other)
]
  where
    found : same_text j k ≡ true → v ≡ t
    found same = ground (arith, h, same)

    missed : same_text j k ≡ false → find k d ≡ some t
    missed other = ground (arith, h, other)

-- If the merge of mappings keeps the overlay's leaf at a path, so does the merge of two values.
merge_value-overlay :
    (ks : List Text) (old : Option Tree) (t v : Tree)
    → ((base overlay : Fields)
        → IsDistinct overlay
        → get_path ks (mapping overlay) ≡ some v
        → get_path ks (mapping (deep_merge base overlay)) ≡ some v)
    → IsDistinctTree t
    → get_path ks t ≡ some v
    → get_path ks (merge_value old t) ≡ some v
unfolding deep_merge IsDistinct
merge_value-overlay ks old (text t) v ih distinct here = here
merge_value-overlay ks old null v ih distinct here = here
merge_value-overlay ks old (scalar b s) v ih distinct here = here
merge_value-overlay ks old (sequence ts) v ih distinct here = here
merge_value-overlay ks none (mapping new) v ih distinct here = here
merge_value-overlay ks (some (text t)) (mapping new) v ih distinct here = here
merge_value-overlay ks (some null) (mapping new) v ih distinct here = here
merge_value-overlay ks (some (scalar b s)) (mapping new) v ih distinct here = here
merge_value-overlay ks (some (sequence ts)) (mapping new) v ih distinct here = here
merge_value-overlay ks (some (mapping base)) (mapping new) v ih distinct here =
    ih base new distinct here

-- A value of the overlay that is not a mapping, at the end of any path of keys, stands at the end of
-- the same path of the merge, whatever the base has there.
pub deep_merge-overlay :
    (ks : List Text) (base overlay : Fields) (v : Tree)
    → IsDistinct overlay
    → IsLeaf v
    → get_path ks (mapping overlay) ≡ some v
    → get_path ks (mapping (deep_merge base overlay)) ≡ some v
deep_merge-overlay [] base overlay v distinct leaf here = absurd (subst IsLeaf (leaf_of here) leaf)
  where
    leaf_of : some (mapping overlay) ≡ some v → v ≡ mapping overlay
    leaf_of h = cc h
deep_merge-overlay (k ∷ ks) base overlay v distinct leaf here =
    elim (Option-cases (find k overlay)) [
      | inl missing ↦ absurd (missing_path missing)
      | inr (t, found) ↦
          rw
            (
              get_path,
              find-deep_merge k base overlay distinct,
              found,
              ← merge_value-merged (find k base) t,
            )
            (merge_value-overlay ks (find k base) t v
              (λ b o d h. deep_merge-overlay ks b o v d leaf h)
              (find-IsDistinct k overlay t distinct found) (path_of t found))
    ]
  where
    missing_path : find k overlay ≡ none → ⊥
    missing_path missing = cc (rw (missing, get_path) at here)

    path_of : (t : Tree) → find k overlay ≡ some t → get_path ks t ≡ some v
    path_of t found = rw (found, get_path) at here

-- A key that neither has is not in the merge.
pub find-deep_merge-none :
    (k : Text) (base overlay : Fields)
    → find k base ≡ none
    → find k overlay ≡ none
    → find k (deep_merge base overlay) ≡ none
unfolding deep_merge find
find-deep_merge-none k base no_fields h g = h
find-deep_merge-none k base (field j v rest) h g = ground (
  arith,
  h,
  g,
  find-deep_merge-none k (set j (merge_value (find j base) v) base) rest,
  find-set j k (merge_value (find j base) v) base,
)
