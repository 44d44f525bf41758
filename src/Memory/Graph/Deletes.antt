-- ===== src/Memory/Graph/Deletes.antt =====
-- Deleting nodes and edges of the graph store
-- (packages/agentforge/src/agentforge/memory/in_memory_graph.py).
use agentforge_py.Prelude.{
  Bool, true, false, ◌||◌, Option, none, List, [], ◌∷◌, String, ◌==◌, ◌≡◌, refl, sym, arith, ◌∙◌,
  if◌then◌else◌, any, eq_of_test, eq_refl, Bool-cases, inl, inr, ok,
}
use agentforge_py.Prelude.Dict.{lookup-erase}
use agentforge_py.Memory.Graph.{GraphEdge, Graph, entry, unlink, drop_node, delete_node, get_node}
use agentforge_py.Memory.Graph.Edges.{
  entry-erase, joins, first_edge-unlink, first_edge-none, any-far,
}
use agentforge_py.Memory.Graph.Laws.{out_edge, in_edge, IsSound, splits_out, splits_in}

module _ {P : Type 0} where
  -- An edge that joins `a` to `b` does so from both ends.
  any-swap :
      (a b t : String) (es : List (GraphEdge P))
      → any (joins (λ x. x.src) (λ x. x.dst) splits_out a b t) es
        ≡ any (joins (λ x. x.dst) (λ x. x.src) splits_in b a t) es
  any-swap a b t [] = refl
  any-swap a b t (e ∷ es) = ground (arith, any-swap a b t es)

  -- The lists of a node without an edge to `b` are searched in vain.
  out_edge-none :
      (g : Graph P) (a b t : String)
      → IsSound g
      → any (joins (λ x. x.src) (λ x. x.dst) splits_out a b t) (entry b g.incoming) ≡ false
      → out_edge g a b t ≡ none
  out_edge-none g a b t s h =
      s.agrees a b t
      ∙ first_edge-none (λ x. x.dst) (λ x. x.src) splits_in b a t (entry b g.incoming)
          (s.placed_in b) (sym (any-swap a b t (entry b g.incoming)) ∙ h)

  in_edge-none :
      (g : Graph P) (a b t : String)
      → IsSound g
      → any (joins (λ x. x.dst) (λ x. x.src) splits_in b a t) (entry a g.outgoing) ≡ false
      → in_edge g a b t ≡ none
  in_edge-none g a b t s h =
      sym (s.agrees a b t)
      ∙ first_edge-none (λ x. x.src) (λ x. x.dst) splits_out a b t (entry a g.outgoing)
          (s.placed_out a) (any-swap a b t (entry a g.outgoing) ∙ h)

  pub out_edge-drop_node :
      (k : String) (g : Graph P) (a b t : String)
      → IsSound g
      → out_edge (drop_node k g) a b t ≡ (if k == a || k == b then none else out_edge g a b t)
  unfolding drop_node
  out_edge-drop_node k g a b t s =
      let cleared = unlink (λ e. e.src) (entry k g.incoming) g.outgoing in
      let found =
        first_edge-unlink (λ x. x.src) (λ x. x.dst) splits_out a b t (entry k g.incoming) g.outgoing
          (s.placed_out a) in
      elim (Bool-cases (k == a)) [
        | inl at_a ↦ rw (entry-erase k a cleared, at_a) refl
        | inr off_a ↦ elim (Bool-cases (k == b)) [
          | inr off_b ↦
              rw
                (
                  entry-erase k a cleared,
                  off_a,
                  off_b,
                  found,
                  any-far (λ x. x.src) (λ x. x.dst) splits_out a b k t (entry k g.incoming)
                      (s.placed_in k) off_b,
                )
                refl
          | inl at_b ↦
              rw (entry-erase k a cleared, off_a, at_b, found, eq_of_test k b at_b)
                (cleared_edge
                  (any (joins (λ x. x.src) (λ x. x.dst) splits_out a b t) (entry b g.incoming))
                  (out_edge g a b t) (out_edge-none g a b t s))
        ]
      ]
    where
      cleared_edge :
          (j : Bool) (o : Option (GraphEdge P))
          → (j ≡ false → o ≡ none)
          → (if j then none else o) ≡ none
      cleared_edge true o h = refl
      cleared_edge false o h = h refl

  pub in_edge-drop_node :
      (k : String) (g : Graph P) (a b t : String)
      → IsSound g
      → in_edge (drop_node k g) a b t ≡ (if k == a || k == b then none else in_edge g a b t)
  unfolding drop_node
  in_edge-drop_node k g a b t s =
      let cleared = unlink (λ e. e.dst) (entry k g.outgoing) g.incoming in
      let found =
        first_edge-unlink (λ x. x.dst) (λ x. x.src) splits_in b a t (entry k g.outgoing) g.incoming
          (s.placed_in b) in
      elim (Bool-cases (k == b)) [
        | inl at_b ↦ ground (arith, entry-erase k b cleared)
        | inr off_b ↦ elim (Bool-cases (k == a)) [
          | inr off_a ↦ ground (
            arith,
            entry-erase k b cleared,
            found,
            any-far (λ x. x.dst) (λ x. x.src) splits_in b a k t (entry k g.outgoing)
                (s.placed_out k) off_a,
          )
          | inl at_a ↦
              ground
                (arith, entry-erase k b cleared, found, eq_of_test k a at_a, in_edge-none g a b t s)
        ]
      ]

  get_node-drop_node : (k : String) (g : Graph P) → get_node k (drop_node k g) ≡ none
  unfolding drop_node
  get_node-drop_node k g = ground (arith, lookup-erase k k g.nodes, eq_refl k)

  -- In a graph whose two maps agree, a deletion of a node that returns true: the node goes, and with
  -- it every edge from it or to it, seen from either end; every other edge stays.
  pub delete_node_lem :
      (k : String) (cascade : Bool) (g : Graph P) (a b t : String)
      → IsSound g
      → (delete_node k cascade g).0 ≡ ok true
      → let g' = (delete_node k cascade g).1 in
        (get_node k g' ≡ none)
        × (out_edge g' a b t ≡ (if k == a || k == b then none else out_edge g a b t))
        × (in_edge g' a b t ≡ (if k == a || k == b then none else in_edge g a b t))
  unfolding delete_node
  delete_node_lem k cascade g a b t s h = (
    ground (arith, get_node-drop_node k g),
    ground (arith, out_edge-drop_node k g a b t s),
    ground (arith, in_edge-drop_node k g a b t s),
  )
