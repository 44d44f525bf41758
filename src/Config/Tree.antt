-- ===== src/Config/Tree.antt =====
-- The trees that a configuration file reads as
-- (packages/agentforge-core/src/agentforge_core/config/loader.py): texts are lists of code points,
-- and a mapping is its fields in the order of insertion.
use agentforge_py.Prelude.{
  ℕ, Bool, true, false, ◌&&◌, Option, none, some, List, [], ◌∷◌, String, ◌≡◌, ◌↔◌, refl, arith, eqb,
  if◌then◌else◌,
}

abbrev pub Text : Type 0
Text = List ℕ

mutual
  -- `scalar` is a number or a Boolean: whether it counts as true, and its text.
  pub data Tree : Type 0 where
    text : Text → Tree
    null : Tree
    scalar : Bool → String → Tree
    sequence : Trees → Tree
    mapping : Fields → Tree

  pub data Trees : Type 0 where
    no_trees : Trees
    tree : Tree → Trees → Trees

  pub data Fields : Type 0 where
    no_fields : Fields
    field : Text → Tree → Fields → Fields

abbrev pub same_text : Text → Text → Bool
same_text [] [] = true
same_text (c ∷ cs) (d ∷ ds) = let rest = same_text cs ds in eqb c d && rest
same_text _ _ = false

pub same_text_refl : (t : Text) → same_text t t ≡ true
same_text_refl [] = refl
same_text_refl (c ∷ t) = ground (arith, same_text_refl t)

pub text_of_test : (s t : Text) → same_text s t ≡ true → s ≡ t
text_of_test [] [] h = refl
text_of_test [] (d ∷ t) h = cc h
text_of_test (c ∷ s) [] h = cc h
text_of_test (c ∷ s) (d ∷ t) h = ground (arith, h, text_of_test s t)

pub same_text_iff : (s t : Text) → (same_text s t ≡ true) ↔ (s ≡ t)
same_text_iff s t = (text_of_test s t, λ e. rw e (same_text_refl t))

-- `d.get(k)`
unfoldable pub find : Text → Fields → Option Tree
find k no_fields = none
find k (field j v d) = let rest = find k d in if same_text j k then some v else rest

-- `d[k] = v`: an existing key keeps its place
unfoldable pub set : Text → Tree → Fields → Fields
set k v no_fields = field k v no_fields
set k v (field j w d) =
    let rest = set k v d in if same_text j k then field j v d else field j w rest

-- `d.pop(k, None)`
unfoldable pub remove : Text → Fields → Fields
remove k no_fields = no_fields
remove k (field j v d) = let rest = remove k d in if same_text j k then rest else field j v rest

pub find-set :
    (k j : Text) (v : Tree) (d : Fields)
    → find j (set k v d) ≡ (if same_text k j then some v else find j d)
unfolding find set
find-set k j v no_fields = refl
find-set k j v (field i w d) =
    ground (arith, same_text_iff k j, same_text_iff i k, same_text_iff i j, find-set k j v d)

pub find-remove :
    (k j : Text) (d : Fields) → find j (remove k d) ≡ (if same_text k j then none else find j d)
unfolding find remove
find-remove k j no_fields = ground arith
find-remove k j (field i w d) =
    ground (arith, same_text_iff k j, same_text_iff i k, same_text_iff i j, find-remove k j d)

-- The keys of a mapping, and of the mappings that are its values, are all different, as in every
-- Python dict.
unfoldable mutual
  pub IsDistinct : Fields → Type 0
  IsDistinct no_fields = Unit
  IsDistinct (field k v d) = (find k d ≡ none) × (IsDistinctTree v × IsDistinct d)

  pub IsDistinctTree : Tree → Type 0
  IsDistinctTree (text t) = Unit
  IsDistinctTree null = Unit
  IsDistinctTree (scalar b s) = Unit
  IsDistinctTree (sequence ts) = Unit
  IsDistinctTree (mapping d) = IsDistinct d

-- The value at the end of a path of keys.
abbrev pub get_path : List Text → Tree → Option Tree
get_path [] t = some t
get_path (k ∷ ks) (mapping d) = elim (find k d) [ none ↦ none | some t ↦ get_path ks t ]
get_path (k ∷ ks) (text t) = none
get_path (k ∷ ks) null = none
get_path (k ∷ ks) (scalar b s) = none
get_path (k ∷ ks) (sequence ts) = none

-- A value that a merge replaces as a whole.
abbrev pub IsLeaf : Tree → Type 0
IsLeaf (mapping d) = ⊥
IsLeaf (text t) = Unit
IsLeaf null = Unit
IsLeaf (scalar b s) = Unit
IsLeaf (sequence ts) = Unit
