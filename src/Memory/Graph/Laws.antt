-- ===== src/Memory/Graph/Laws.antt =====
-- What the operations of the graph store do to the edge between two nodes, seen from either end
-- (packages/agentforge/src/agentforge/memory/in_memory_graph.py).
use agentforge_py.Prelude.{
  Bool, true, false, not, ◌&&◌, ◌||◌, Option, none, some, List, [], ◌∷◌, ◌++◌, String, ◌==◌, ◌≡◌,
  refl, sym, subst, arith, ◌∙◌, if◌then◌else◌, keep, any, All, eq_iff, Bool-cases, inl, inr, Result,
  ok, err,
}
use agentforge_py.Prelude.Dict.{lookup, is_some}
use agentforge_py.Memory.Graph.{
  GraphEdge, Graph, entry, same_edge, first_edge, goes_to, comes_from, link, add_edge,
}
use agentforge_py.Memory.Graph.Edges.{entry-insert, first_edge-replace}

module _ {P : Type 0} where
  -- The edge of a type from `a` to `b`, in the list of `a` and in the list of `b`.
  abbrev pub out_edge : Graph P → String → String → String → Option (GraphEdge P)
  out_edge g a b t = first_edge (goes_to b t) (entry a g.outgoing)

  abbrev pub in_edge : Graph P → String → String → String → Option (GraphEdge P)
  in_edge g a b t = first_edge (comes_from a t) (entry b g.incoming)

  abbrev pub joined : String → String → String → GraphEdge P → Bool
  joined a b t e = e.src == a && (e.dst == b && e.edge_type == t)

  -- The lists of a node hold edges of that node, and both ends list the same edges.
  pub record IsSound (g : Graph P) : Type 0 where
    pub placed_out : (a : String) → All (λ e. e.src ≡ a) (entry a g.outgoing)
    pub placed_in : (b : String) → All (λ e. e.dst ≡ b) (entry b g.incoming)
    pub agrees : (a b t : String) → out_edge g a b t ≡ in_edge g a b t

  pub splits_out :
      (x e : GraphEdge P)
      → same_edge x e ≡ (x.src == e.src && (x.dst == e.dst && x.edge_type == e.edge_type))
  splits_out x e = refl

  pub splits_in :
      (x e : GraphEdge P)
      → same_edge x e ≡ (x.dst == e.dst && (x.src == e.src && x.edge_type == e.edge_type))
  splits_in x e = ground arith

  pub out_edge-link :
      (e : GraphEdge P) (g : Graph P) (a b t : String)
      → out_edge (link e g) a b t ≡ (if joined a b t e then some e else out_edge g a b t)
  unfolding link
  out_edge-link e g a b t =
      let es = keep (λ x. not (goes_to e.dst e.edge_type x)) (entry e.src g.outgoing) ++ e ∷ [] in
      ground (
        arith,
        entry-insert e.src a es g.outgoing,
        eq_iff e.src a,
        first_edge-replace (λ x. x.src) (λ x. x.dst) splits_out b t e (entry e.src g.outgoing),
      )

  pub in_edge-link :
      (e : GraphEdge P) (g : Graph P) (a b t : String)
      → in_edge (link e g) a b t ≡ (if joined a b t e then some e else in_edge g a b t)
  unfolding link
  in_edge-link e g a b t =
      let es =
        keep (λ x. not (comes_from e.src e.edge_type x)) (entry e.dst g.incoming) ++ e ∷ [] in
      ground (
        arith,
        entry-insert e.dst b es g.incoming,
        eq_iff e.dst b,
        first_edge-replace (λ x. x.dst) (λ x. x.src) splits_in a t e (entry e.dst g.incoming),
      )

  -- Adding an edge between two nodes that are there makes it, seen from both ends, the edge of its
  -- type between them, and leaves every other edge; without one of its nodes it is refused with
  -- `ValueError` and no edge changes.
  pub add_edge_lem :
      (e : GraphEdge P) (g : Graph P) (a b t : String)
      → let g' = (add_edge e g).1 in
        let accepted = is_some (lookup e.src g.nodes) && is_some (lookup e.dst g.nodes) in
        ((add_edge e g).0
          ≡ (if accepted then ok tt else err (package.agentforge_py.Prelude.value_error)))
        × (out_edge g' a b t ≡ (if accepted && joined a b t e then some e else out_edge g a b t))
        × (in_edge g' a b t ≡ (if accepted && joined a b t e then some e else in_edge g a b t))
  unfolding add_edge
  add_edge_lem e g a b t = (
    ground arith,
    ground (arith, out_edge-link e g a b t),
    ground (arith, in_edge-link e g a b t),
  )
