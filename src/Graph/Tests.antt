-- ===== src/Graph/Tests.antt =====
-- The expansion and the merge of small graphs.
use flavor_rag.Prelude.Distinct.{Distinct}
use flavor_rag.Prelude.{String, none, some, ◌≡◌, ◌≤◌, [], ◌∷◌, length, map, All, refl, false, true}
use flavor_rag.Graph.Views.{Node, Edge, View, merge_graph_views, mark_expandable}
use flavor_rag.Graph.Expansion.{expand_neighbors}
use flavor_rag.Graph.Walks.{Shows, expand_neighbors_lem}

abbrev node : String → Node
node id = record { id = id; label = ""; expandable = none }

abbrev joined : String → String → Edge
joined a b = record { source = a; target = b; relation = "r" }

-- A path from a to d, and an edge from a to c.
abbrev graph : View
graph = record {
  nodes = node "a" ∷ node "b" ∷ node "c" ∷ node "d" ∷ [];
  edges = joined "a" "b" ∷ joined "b" "c" ∷ joined "c" "d" ∷ joined "a" "c" ∷ [];
}

-- Only the edges that led to a new node are returned: that from b to c is left out.
expand_neighbors-graph : expand_neighbors graph [] 20 "a" 2 ≡ record {
  nodes = node "b" ∷ node "c" ∷ node "d" ∷ [];
  edges = joined "a" "b" ∷ joined "a" "c" ∷ joined "c" "d" ∷ [];
}
unfolding expand_neighbors
expand_neighbors-graph = refl

merge_graph_views-known :
    merge_graph_views graph
      (record { nodes = node "d" ∷ node "e" ∷ []; edges = joined "a" "b" ∷ [] })
    ≡ record {
      nodes = node "a" ∷ node "b" ∷ node "c" ∷ node "d" ∷ node "e" ∷ [];
      edges = graph.edges;
    }
unfolding merge_graph_views
merge_graph_views-known = refl

mark_expandable-hidden :
    map (λ (n : Node). n.expandable) (mark_expandable graph ("a" ∷ "b" ∷ "c" ∷ []))
    ≡ some false ∷ some false ∷ some true ∷ some false ∷ []
unfolding mark_expandable
mark_expandable-hidden = refl

expand_neighbors_lem_example :
    let shown = (expand_neighbors graph ("d" ∷ []) 1 "a" 2).nodes in
    All (Shows graph ("d" ∷ []) 1 "a" 2) shown
    × Distinct (map (λ (n : Node). n.id) shown)
    × (length shown ≤ 1)
expand_neighbors_lem_example = expand_neighbors_lem graph ("d" ∷ []) 1 "a" 2
