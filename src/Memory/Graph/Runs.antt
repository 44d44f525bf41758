-- ===== src/Memory/Graph/Runs.antt =====
-- Any sequence of writes to the graph store
-- (packages/agentforge/src/agentforge/memory/in_memory_graph.py).
use agentforge_py.Prelude.{
  Bool, not, List, [], ◌∷◌, ◌++◌, String, ◌==◌, ◌≡◌, refl, sym, arith, ◌∙◌, subst, keep, All,
  All-append, eq_of_test, Bool-cases, inl, inr,
}
use agentforge_py.Prelude.Dict.{Dict, insert, erase, lookup}
use agentforge_py.Memory.Graph.{
  GraphNode, GraphEdge, Graph, entry, same_edge, goes_to, comes_from, empty_graph, add_node, link,
  add_edge, unlink, drop_node, delete_node, cut, delete_edge, close,
}
use agentforge_py.Memory.Graph.Edges.{
  entry-insert, entry-erase, entry-set_default, keep-All, unlink-All,
}
use agentforge_py.Memory.Graph.Laws.{
  out_edge, in_edge, IsSound, splits_out, splits_in, out_edge-link, in_edge-link,
}
use agentforge_py.Memory.Graph.Deletes.{out_edge-drop_node, in_edge-drop_node}
use agentforge_py.Memory.Graph.Cuts.{out_edge-cut, in_edge-cut, delete_edge-cut}

-- A call of one of the writing methods.
pub data Write (P : Type 0) : Type 0 where
  put_node : GraphNode P → Write P
  put_edge : GraphEdge P → Write P
  remove_node : String → Bool → Write P
  remove_edge : String → String → String → Write P
  clear : Write P

module _ {P : Type 0} where
  -- A call that raises leaves what it has changed, which is nothing.
  abbrev pub write : Write P → Graph P → Graph P
  write (put_node n) g = add_node n g
  write (put_edge e) g = (add_edge e g).1
  write (remove_node k cascade) g = (delete_node k cascade g).1
  write (remove_edge src dst t) g = (delete_edge src dst t g).1
  write clear g = close g

  abbrev pub write_all : List (Write P) → Graph P → Graph P
  write_all [] g = g
  write_all (w ∷ ws) g = write_all ws (write w g)

  placed-insert :
      (near : GraphEdge P → String) (k a : String) (es : List (GraphEdge P))
      (d : Dict (List (GraphEdge P)))
      → All (λ x. near x ≡ k) es
      → All (λ x. near x ≡ a) (entry a d)
      → All (λ x. near x ≡ a) (entry a (insert k es d))
  placed-insert near k a es d new old = elim (Bool-cases (k == a)) [
    | inl here ↦
        rw (entry-insert k a es d, here)
          (subst (λ (c : String). All (λ x. near x ≡ c) es) (eq_of_test k a here) new)
    | inr off ↦ rw (entry-insert k a es d, off) old
  ]

  placed-erase :
      (near : GraphEdge P → String) (k a : String) (d : Dict (List (GraphEdge P)))
      → All (λ x. near x ≡ a) (entry a d)
      → All (λ x. near x ≡ a) (entry a (erase k d))
  placed-erase near k a d old = elim (Bool-cases (k == a)) [
    | inl here ↦ rw (entry-erase k a d, here) tt
    | inr off ↦ rw (entry-erase k a d, off) old
  ]

  pub empty_graph-IsSound : IsSound (empty_graph {P = P})
  unfolding empty_graph lookup
  empty_graph-IsSound = record { placed_out = λ a. tt; placed_in = λ b. tt; agrees = λ a b t. refl }

  add_node-IsSound : (n : GraphNode P) (g : Graph P) → IsSound g → IsSound (add_node n g)
  unfolding add_node
  add_node-IsSound n g s = record {
    placed_out = λ a. rw (entry-set_default n.id a g.outgoing) (s.placed_out a);
    placed_in = λ b. rw (entry-set_default n.id b g.incoming) (s.placed_in b);
    agrees = λ a b t.
        rw (entry-set_default n.id a g.outgoing, entry-set_default n.id b g.incoming)
          (s.agrees a b t);
  }

  link-IsSound : (e : GraphEdge P) (g : Graph P) → IsSound g → IsSound (link e g)
  unfolding link
  link-IsSound e g s =
      let out = keep (λ x. not (goes_to e.dst e.edge_type x)) (entry e.src g.outgoing) in
      let inc = keep (λ x. not (comes_from e.src e.edge_type x)) (entry e.dst g.incoming) in
      record {
        placed_out = λ a.
            placed-insert (λ x. x.src) e.src a (out ++ e ∷ []) g.outgoing
              (All-append (λ x. x.src ≡ e.src) out (e ∷ [])
                (keep-All (λ x. x.src ≡ e.src) (λ x. not (goes_to e.dst e.edge_type x))
                  (entry e.src g.outgoing) (s.placed_out e.src))
                (refl, tt))
              (s.placed_out a);
        placed_in = λ b.
            placed-insert (λ x. x.dst) e.dst b (inc ++ e ∷ []) g.incoming
              (All-append (λ x. x.dst ≡ e.dst) inc (e ∷ [])
                (keep-All (λ x. x.dst ≡ e.dst) (λ x. not (comes_from e.src e.edge_type x))
                  (entry e.dst g.incoming) (s.placed_in e.dst))
                (refl, tt))
              (s.placed_in b);
        agrees = λ a b t.
            out_edge-link e g a b t ∙ (rw (s.agrees a b t) refl ∙ sym (in_edge-link e g a b t));
      }

  drop_node-IsSound : (k : String) (g : Graph P) → IsSound g → IsSound (drop_node k g)
  unfolding drop_node
  drop_node-IsSound k g s = record {
    placed_out = λ a.
        placed-erase (λ x. x.src) k a (unlink (λ e. e.src) (entry k g.incoming) g.outgoing)
          (unlink-All (λ x. x.src) (λ x. x.dst) splits_out a (entry k g.incoming) g.outgoing
            (s.placed_out a));
    placed_in = λ b.
        placed-erase (λ x. x.dst) k b (unlink (λ e. e.dst) (entry k g.outgoing) g.incoming)
          (unlink-All (λ x. x.dst) (λ x. x.src) splits_in b (entry k g.outgoing) g.incoming
            (s.placed_in b));
    agrees = λ a b t.
        out_edge-drop_node k g a b t s
        ∙ (rw (s.agrees a b t) refl ∙ sym (in_edge-drop_node k g a b t s));
  }

  cut-IsSound : (e : GraphEdge P) (g : Graph P) → IsSound g → IsSound (cut e.src e.dst e g)
  unfolding cut
  cut-IsSound e g s = record {
    placed_out = λ a.
        placed-insert (λ x. x.src) e.src a _ g.outgoing
          (keep-All (λ x. x.src ≡ e.src) (λ x. not (same_edge x e)) (entry e.src g.outgoing)
            (s.placed_out e.src))
          (s.placed_out a);
    placed_in = λ b.
        placed-insert (λ x. x.dst) e.dst b _ g.incoming
          (keep-All (λ x. x.dst ≡ e.dst) (λ x. not (same_edge x e)) (entry e.dst g.incoming)
            (s.placed_in e.dst))
          (s.placed_in b);
    agrees = λ a b t.
        out_edge-cut e g a b t s ∙ (rw (s.agrees a b t) refl ∙ sym (in_edge-cut e g a b t s));
  }

  add_edge-IsSound : (e : GraphEdge P) (g : Graph P) → IsSound g → IsSound (add_edge e g).1
  unfolding add_edge
  add_edge-IsSound e g s = ground (arith, link-IsSound e g s)

  delete_node-IsSound :
      (k : String) (cascade : Bool) (g : Graph P) → IsSound g → IsSound (delete_node k cascade g).1
  unfolding delete_node
  delete_node-IsSound k cascade g s = ground (arith, drop_node-IsSound k g s)

  delete_edge-IsSound :
      (src dst t : String) (g : Graph P) → IsSound g → IsSound (delete_edge src dst t g).1
  delete_edge-IsSound src dst t g s = elim (delete_edge-cut src dst t g s) [
    | inl (missing, same) ↦ rw same s
    | inr (e, found, from, to, typed, deleted) ↦ rw deleted (cut-IsSound e g s)
  ]

  write-IsSound : (w : Write P) (g : Graph P) → IsSound g → IsSound (write w g)
  unfolding close empty_graph
  write-IsSound (put_node n) g s = add_node-IsSound n g s
  write-IsSound (put_edge e) g s = add_edge-IsSound e g s
  write-IsSound (remove_node k cascade) g s = delete_node-IsSound k cascade g s
  write-IsSound (remove_edge src dst t) g s = delete_edge-IsSound src dst t g s
  write-IsSound clear g s = empty_graph-IsSound

  pub write_all-IsSound : (ws : List (Write P)) (g : Graph P) → IsSound g → IsSound (write_all ws g)
  write_all-IsSound [] g s = s
  write_all-IsSound (w ∷ ws) g s = write_all-IsSound ws (write w g) (write-IsSound w g s)

  -- After any writes to a new graph store, accepted or not, the edge of a type from one node to
  -- another is the same whether it is looked up among the outgoing edges of the one or among the
  -- incoming edges of the other.
  pub agrees_after_writes :
      (ws : List (Write P)) (a b t : String)
      → out_edge (write_all ws empty_graph) a b t ≡ in_edge (write_all ws empty_graph) a b t
  agrees_after_writes ws a b t = (write_all-IsSound ws empty_graph empty_graph-IsSound).agrees a b t
