-- ===== src/Memory/Graph/Cuts.antt =====
-- `delete_edge` of the graph store
-- (packages/agentforge/src/agentforge/memory/in_memory_graph.py).
use agentforge_py.Prelude.{
  Bool, true, false, not, ◌&&◌, Option, none, some, List, [], ◌∷◌, String, ◌==◌, ◌≡◌, refl, sym, ap,
  arith, ◌∙◌, if◌then◌else◌, keep, All, eq_of_test, Bool-cases, Option-cases, inl, inr, ◌⊎◌,
}
use agentforge_py.Prelude.Dict.{is_some}
use agentforge_py.Memory.Graph.{
  GraphEdge, Graph, entry, same_edge, first_edge, goes_to, cut, delete_edge,
}
use agentforge_py.Memory.Graph.Edges.{entry-insert, first_edge-remove}
use agentforge_py.Memory.Graph.Laws.{out_edge, in_edge, joined, IsSound, splits_out, splits_in}

module _ {P : Type 0} where
  -- What a search finds passes its test and comes from the list.
  first_edge-ends :
      (a b t : String) (es : List (GraphEdge P)) (e : GraphEdge P)
      → All (λ x. x.src ≡ a) es
      → first_edge (goes_to b t) es ≡ some e
      → (e.src ≡ a) × (e.dst ≡ b) × (e.edge_type ≡ t)
  first_edge-ends a b t [] e h found = cc
  first_edge-ends a b t (x ∷ es) e h found = elim (Bool-cases (goes_to b t x)) [
    | inl hit ↦
        let is_x : x ≡ e = ground arith in
        rw (sym is_x)
          (h.0, eq_of_test x.dst b (ground arith), eq_of_test x.edge_type t (ground arith))
    | inr miss ↦ first_edge-ends a b t es e h.1 (ground arith)
  ]

  pub out_edge-cut :
      (e : GraphEdge P) (g : Graph P) (a b t : String)
      → IsSound g
      → out_edge (cut e.src e.dst e g) a b t ≡ (if joined a b t e then none else out_edge g a b t)
  unfolding cut
  out_edge-cut e g a b t s =
      let kept = keep (λ x. not (same_edge x e)) (entry e.src g.outgoing) in
      elim (Bool-cases (e.src == a)) [
        | inr off ↦ ground (arith, entry-insert e.src a kept g.outgoing)
        | inl here ↦ ground (
          arith,
          entry-insert e.src a kept g.outgoing,
          eq_of_test e.src a here,
          first_edge-remove (λ x. x.src) (λ x. x.dst) splits_out a b t e (entry a g.outgoing)
              (s.placed_out a),
        )
      ]

  pub in_edge-cut :
      (e : GraphEdge P) (g : Graph P) (a b t : String)
      → IsSound g
      → in_edge (cut e.src e.dst e g) a b t ≡ (if joined a b t e then none else in_edge g a b t)
  unfolding cut
  in_edge-cut e g a b t s =
      let kept = keep (λ x. not (same_edge x e)) (entry e.dst g.incoming) in
      elim (Bool-cases (e.dst == b)) [
        | inr off ↦ ground (arith, entry-insert e.dst b kept g.incoming)
        | inl here ↦ ground (
          arith,
          entry-insert e.dst b kept g.incoming,
          eq_of_test e.dst b here,
          first_edge-remove (λ x. x.dst) (λ x. x.src) splits_in b a t e (entry b g.incoming)
              (s.placed_in b),
        )
      ]

  -- A deletion either finds no such edge and changes nothing, or cuts the edge it finds.
  pub delete_edge-cut :
      (src dst t : String) (g : Graph P)
      → IsSound g
      → ((out_edge g src dst t ≡ none) × (delete_edge src dst t g ≡ (false, g)))
        ⊎ ((e : GraphEdge P) × (out_edge g src dst t ≡ some e)
            × (e.src ≡ src)
            × (e.dst ≡ dst)
            × (e.edge_type ≡ t)
            × (delete_edge src dst t g ≡ (true, cut e.src e.dst e g)))
  unfolding delete_edge
  delete_edge-cut src dst t g s = elim (Option-cases (out_edge g src dst t)) [
    | inl missing ↦ inl (missing, ground arith)
    | inr (e, found) ↦
        let (from, to, typed) =
          first_edge-ends src dst t (entry src g.outgoing) e (s.placed_out src) found in
        inr (e, found, from, to, typed, rw (from, to) (ground arith))
  ]

  missing_edge :
      (o : String → String → String → Option (GraphEdge P)) (src dst u a b t : String)
      → o src dst u ≡ none
      → o a b t ≡ (if src == a && (dst == b && u == t) then none else o a b t)
  missing_edge o src dst u a b t h = elim (Bool-cases (src == a && (dst == b && u == t))) [
    | inr other ↦ rw other refl
    | inl same ↦ rw same (
        rw
          (
            sym (eq_of_test src a (ground arith)),
            sym (eq_of_test dst b (ground arith)),
            sym (eq_of_test u t (ground arith)),
          )
          h)
  ]

  -- In a graph whose two maps agree, deleting an edge says whether there was one from `src` to `dst`
  -- of the type; afterwards there is none, seen from either end, and every other edge stays.
  pub delete_edge_lem :
      (src dst u : String) (g : Graph P) (a b t : String)
      → IsSound g
      → let g' = (delete_edge src dst u g).1 in
        ((delete_edge src dst u g).0 ≡ is_some (out_edge g src dst u))
        × (out_edge g' a b t
            ≡ (if src == a && (dst == b && u == t) then none else out_edge g a b t))
        × (in_edge g' a b t ≡ (if src == a && (dst == b && u == t) then none else in_edge g a b t))
  delete_edge_lem src dst u g a b t s = elim (delete_edge-cut src dst u g s) [
    | inl (missing, same) ↦ (
      ground arith,
      ap (λ (o : Bool × Graph P). out_edge o.1 a b t) same
          ∙ missing_edge (out_edge g) src dst u a b t missing,
      ap (λ (o : Bool × Graph P). in_edge o.1 a b t) same
          ∙ missing_edge (in_edge g) src dst u a b t (sym (s.agrees src dst u) ∙ missing),
    )
    | inr (e, found, from, to, typed, deleted) ↦ (
      ground arith,
      ap (λ (o : Bool × Graph P). out_edge o.1 a b t) deleted
          ∙ (out_edge-cut e g a b t s ∙ rw (from, to, typed) refl),
      ap (λ (o : Bool × Graph P). in_edge o.1 a b t) deleted
          ∙ (in_edge-cut e g a b t s ∙ rw (from, to, typed) refl),
    )
  ]
