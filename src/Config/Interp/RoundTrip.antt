-- ===== src/Config/Interp/RoundTrip.antt =====
-- Writing a text so that the interpolation gives it back, and what a reference stands for.
use agentforge_py.Prelude.{
  ℕ, zero, true, false, [], ◌∷◌, ◌≡◌, refl, subst, ◌∙◌, arith, eqb, if◌then◌else◌, ok, ◌>>=◌,
  Bool-cases, inl, inr,
}
use agentforge_py.Config.Tree.{
  Text, Tree, text, null, scalar, sequence, mapping, Trees, no_trees, tree, Fields, no_fields,
  field,
}
use agentforge_py.Config.Interp.{
  Environ, dollar, reference_at, interp_from, interp, interp_tree, interp_trees, interp_fields,
}

-- Every dollar doubled.
pub escape : Text → Text
escape [] = []
escape (c ∷ cs) = let rest = escape cs in if eqb c dollar then c ∷ dollar ∷ rest else c ∷ rest

mutual
  unfolding escape

  pub escape_tree : Tree → Tree
  escape_tree (text t) = text (escape t)
  escape_tree null = null
  escape_tree (scalar b s) = scalar b s
  escape_tree (sequence ts) = sequence (escape_trees ts)
  escape_tree (mapping d) = mapping (escape_fields d)

  pub escape_trees : Trees → Trees
  escape_trees no_trees = no_trees
  escape_trees (tree t ts) = tree (escape_tree t) (escape_trees ts)

  pub escape_fields : Fields → Fields
  escape_fields no_fields = no_fields
  escape_fields (field k v d) = field k (escape_tree v) (escape_fields d)

module _ (environ : Environ) where
  interp_from-plain :
      (c : ℕ) (cs : Text)
      → eqb c dollar ≡ false
      → interp_from environ zero (c ∷ cs) ≡ (interp_from environ zero cs >>= λ rest. ok (c ∷ rest))
  unfolding interp_from
  interp_from-plain c cs h = rw (h, interp_from) refl

  interp_from-dollars :
      (cs : Text)
      → interp_from environ zero (dollar ∷ dollar ∷ cs)
        ≡ (interp_from environ zero cs >>= λ rest. ok (dollar ∷ rest))
  unfolding interp_from reference_at
  interp_from-dollars cs = refl

  interp_from-escape : (t : Text) → interp_from environ zero (escape t) ≡ ok t
  unfolding escape interp_from
  interp_from-escape [] = refl
  interp_from-escape (c ∷ cs) = elim (Bool-cases (eqb c dollar)) [
    | inl same ↦
        subst (λ (x : ℕ). interp_from environ zero (escape (x ∷ cs)) ≡ ok (x ∷ cs)) (is_dollar same)
          (interp_from-dollars (escape cs) ∙ rw (interp_from-escape cs) refl)
    | inr other ↦
        rw (other, escape) (interp_from-plain c (escape cs) other ∙ rw (interp_from-escape cs) refl)
  ]
    where
      is_dollar : eqb c dollar ≡ true → dollar ≡ c
      is_dollar same = ground (arith, same)

  mutual
    unfolding interp interp_tree interp_trees interp_fields escape_tree escape_trees escape_fields

    tree_round : (t : Tree) → interp_tree environ (escape_tree t) ≡ ok t
    tree_round (text t) = rw (interp_from-escape t) refl
    tree_round null = refl
    tree_round (scalar b s) = refl
    tree_round (sequence ts) = rw (trees_round ts) refl
    tree_round (mapping d) = rw (fields_round d) refl

    trees_round : (ts : Trees) → interp_trees environ (escape_trees ts) ≡ ok ts
    trees_round no_trees = refl
    trees_round (tree t ts) = rw (tree_round t, trees_round ts) refl

    fields_round : (d : Fields) → interp_fields environ (escape_fields d) ≡ ok d
    fields_round no_fields = refl
    fields_round (field k v d) = rw (tree_round v, fields_round d) refl

  -- The interpolation of a configuration tree whose texts have every dollar doubled is the tree, in
  -- every environment.
  pub interp_tree-escape : (t : Tree) → interp_tree environ (escape_tree t) ≡ ok t
  interp_tree-escape t = tree_round t
