-- ===== src/Memory/Graph.antt =====
-- `InMemoryGraphStore` of packages/agentforge/src/agentforge/memory/in_memory_graph.py. Its state is
-- the nodes and, for each node, its outgoing and its incoming edges. Every node has an entry in both
-- maps since `add_node` makes them, so a missing entry reads as the empty list. An edge object is
-- told from others (`is not`) by its two ends and its type, under which a list holds one edge.
-- The properties of nodes and edges are of any type, and are only stored.
pub mod Edges
pub mod Laws
pub mod Deletes
pub mod Cuts
pub mod Runs
mod Tests
use agentforge_py.Prelude.{
  ℕ, zero, suc, ◌+◌, Bool, true, false, not, ◌&&◌, ◌||◌, Option, none, some, List, [], ◌∷◌, ◌++◌,
  String, ◌==◌, if◌then◌else◌, keep, Result, ok, err, value_error,
}
use agentforge_py.Prelude.Dict.{Dict, lookup, insert, erase, is_some}

pub record GraphNode (P : Type 0) : Type 0 where
  pub id : String
  pub labels : List String
  pub properties : P

pub record GraphEdge (P : Type 0) : Type 0 where
  pub src : String
  pub dst : String
  pub edge_type : String
  pub properties : P

pub record Graph (P : Type 0) : Type 0 where
  pub nodes : Dict (GraphNode P)
  pub outgoing : Dict (List (GraphEdge P))
  pub incoming : Dict (List (GraphEdge P))

pub data Direction : Type 0 where
  out_edges in_edges any_edges : Direction

module _ {P : Type 0} where
  abbrev pub or_empty : Option (List (GraphEdge P)) → List (GraphEdge P)
  or_empty none = []
  or_empty (some es) = es

  -- `d.get(k, ())`
  abbrev pub entry : String → Dict (List (GraphEdge P)) → List (GraphEdge P)
  entry k d = or_empty (lookup k d)

  -- `d.setdefault(k, [])`
  unfoldable pub set_default : String → Dict (List (GraphEdge P)) → Dict (List (GraphEdge P))
  set_default k d = if is_some (lookup k d) then d else insert k [] d

  abbrev pub same_edge : GraphEdge P → GraphEdge P → Bool
  same_edge x e = x.src == e.src && (x.dst == e.dst && x.edge_type == e.edge_type)

  abbrev pub non_empty : List (GraphEdge P) → Bool
  non_empty [] = false
  non_empty (e ∷ es) = true

  abbrev pub first_edge : (GraphEdge P → Bool) → List (GraphEdge P) → Option (GraphEdge P)
  first_edge p [] = none
  first_edge p (e ∷ es) = if p e then some e else first_edge p es

  -- The tests on an edge of one node's list: its other end and its type.
  abbrev pub goes_to : String → String → GraphEdge P → Bool
  goes_to b t e = e.dst == b && e.edge_type == t

  abbrev pub comes_from : String → String → GraphEdge P → Bool
  comes_from a t e = e.src == a && e.edge_type == t

  unfoldable pub empty_graph : Graph P
  empty_graph = record { nodes = []; outgoing = []; incoming = [] }

  unfoldable pub add_node : GraphNode P → Graph P → Graph P
  add_node n g = record {
    nodes = insert n.id n g.nodes;
    outgoing = set_default n.id g.outgoing;
    incoming = set_default n.id g.incoming;
  }

  -- The edge replaces one with its ends and its type, in both maps.
  unfoldable pub link : GraphEdge P → Graph P → Graph P
  link e g = record g {
    outgoing =
        insert e.src
          (keep (λ x. not (goes_to e.dst e.edge_type x)) (entry e.src g.outgoing) ++ e ∷ [])
          g.outgoing;
    incoming =
        insert e.dst
          (keep (λ x. not (comes_from e.src e.edge_type x)) (entry e.dst g.incoming) ++ e ∷ [])
          g.incoming;
  }

  unfoldable pub add_edge : GraphEdge P → Graph P → Result (Unit {0}) × Graph P
  add_edge e g =
      if not (is_some (lookup e.src g.nodes))
      then (err value_error, g)
      else if not (is_some (lookup e.dst g.nodes))
      then (err value_error, g)
      else (ok tt, link e g)

  abbrev pub get_node : String → Graph P → Option (GraphNode P)
  get_node k g = lookup k g.nodes

  abbrev incident : Direction → String → Graph P → List (GraphEdge P)
  incident out_edges k g = entry k g.outgoing
  incident in_edges k g = entry k g.incoming
  incident any_edges k g = entry k g.outgoing ++ entry k g.incoming

  abbrev of_type : Option String → List (GraphEdge P) → List (GraphEdge P)
  of_type none es = es
  of_type (some t) es = keep (λ e. e.edge_type == t) es

  unfoldable pub get_edges : String → Option String → Direction → Graph P → List (GraphEdge P)
  get_edges k edge_type direction g =
      if is_some (lookup k g.nodes) then of_type edge_type (incident direction k g) else []

  -- `for e in edges: d[end(e)] = [x for x in d[end(e)] if x is not e]`
  unfoldable pub unlink :
      (GraphEdge P → String)
      → List (GraphEdge P)
      → Dict (List (GraphEdge P))
      → Dict (List (GraphEdge P))
  unlink end_of [] d = d
  unlink end_of (e ∷ es) d =
      unlink end_of es (insert (end_of e) (keep (λ x. not (same_edge x e)) (entry (end_of e) d)) d)

  unfoldable pub drop_node : String → Graph P → Graph P
  drop_node k g = record {
    nodes = erase k g.nodes;
    outgoing = erase k (unlink (λ e. e.src) (entry k g.incoming) g.outgoing);
    incoming = erase k (unlink (λ e. e.dst) (entry k g.outgoing) g.incoming);
  }

  unfoldable pub delete_node : String → Bool → Graph P → Result Bool × Graph P
  delete_node k cascade g =
      if not (is_some (lookup k g.nodes))
      then (ok false, g)
      else if not cascade && (non_empty (entry k g.outgoing) || non_empty (entry k g.incoming))
      then (err value_error, g)
      else (ok true, drop_node k g)

  -- The first match is taken out of both lists.
  unfoldable pub cut : String → String → GraphEdge P → Graph P → Graph P
  cut src dst e g = record g {
    outgoing = insert src (keep (λ x. not (same_edge x e)) (entry src g.outgoing)) g.outgoing;
    incoming = insert dst (keep (λ x. not (same_edge x e)) (entry dst g.incoming)) g.incoming;
  }

  unfoldable pub delete_edge : String → String → String → Graph P → Bool × Graph P
  delete_edge src dst edge_type g =
      elim (first_edge (goes_to dst edge_type) (entry src g.outgoing)) [
        | none ↦ (false, g)
        | some e ↦ (true, cut src dst e g)
      ]

  unfoldable pub close : Graph P → Graph P
  close g = record { nodes = []; outgoing = []; incoming = [] }
