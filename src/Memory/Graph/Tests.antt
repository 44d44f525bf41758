-- ===== src/Memory/Graph/Tests.antt =====
-- A graph of two nodes with a loop, and the theorems at it.
use agentforge_py.Prelude.{
  Bool, true, false, none, List, [], ◌∷◌, String, ◌≡◌, refl, ok, err, value_error,
}
use agentforge_py.Prelude.Dict.{lookup, insert}
use agentforge_py.Memory.Graph.{
  GraphNode, GraphEdge, Graph, empty_graph, set_default, link, add_node, add_edge, get_node,
  delete_node,
}
use agentforge_py.Memory.Graph.Laws.{out_edge, in_edge}
use agentforge_py.Memory.Graph.Deletes.{delete_node_lem}
use agentforge_py.Memory.Graph.Runs.{
  Write, put_node, put_edge, write_all, write_all-IsSound, empty_graph-IsSound, agrees_after_writes,
}

abbrev node : String → GraphNode Bool
node k = record { id = k; labels = []; properties = true }

abbrev edge : String → String → GraphEdge Bool
edge a b = record { src = a; dst = b; edge_type = "CITES"; properties = true }

abbrev writes : List (Write Bool)
writes =
    put_node (node "a")
    ∷ put_node (node "b")
    ∷ put_edge (edge "a" "b")
    ∷ put_edge (edge "b" "b")
    ∷ put_edge (edge "b" "c")
    ∷ []

abbrev built : Graph Bool
built = write_all writes empty_graph

-- "c" is not there, and "b" has edges.
refusals :
    ((add_edge (edge "b" "c") built).0 ≡ err value_error)
    × ((delete_node "b" false built).0 ≡ err value_error)
unfolding empty_graph set_default link add_node add_edge lookup insert delete_node
refusals = (refl, refl)

deleted : (delete_node "b" true built).0 ≡ ok true
unfolding empty_graph set_default link add_node add_edge lookup insert delete_node
deleted = refl

delete_node_lem_example :
    let g' = (delete_node "b" true built).1 in
    (get_node "b" g' ≡ none)
    × (out_edge g' "a" "b" "CITES" ≡ none)
    × (in_edge g' "a" "b" "CITES" ≡ none)
delete_node_lem_example =
    delete_node_lem "b" true built "a" "b" "CITES"
      (write_all-IsSound writes empty_graph empty_graph-IsSound) deleted

agrees_after_writes_example : out_edge built "a" "b" "CITES" ≡ in_edge built "a" "b" "CITES"
agrees_after_writes_example = agrees_after_writes writes "a" "b" "CITES"
