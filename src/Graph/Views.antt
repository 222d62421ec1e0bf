-- ===== src/Graph/Views.antt =====
-- `merge_graph_views` and `mark_expandable`. Of a node and an edge the parts that the code reads.
use flavor_rag.Prelude.{
  String, List, Bool, Option, some, if◌then◌else◌, ◌&&◌, not, ◌==◌, in_list, [], ◌∷◌, ◌++◌, map,
  any,
}

pub record Node : Type 0 where
  pub id : String
  pub label : String
  pub expandable : Option Bool

pub record Edge : Type 0 where
  pub source : String
  pub target : String
  pub relation : String

pub record View : Type 0 where
  pub nodes : List Node
  pub edges : List Edge

abbrev pub same_edge : Edge → Edge → Bool
same_edge e f = (e.source == f.source) && (e.target == f.target) && (e.relation == f.relation)

-- The loop over the incoming nodes; `seen_node_ids` are those of the merged nodes.
unfoldable pub merge_nodes : List Node → List Node → List Node
merge_nodes merged [] = merged
merge_nodes merged (n ∷ incoming) =
    merge_nodes
      (if in_list n.id (map (λ (k : Node). k.id) merged) then merged else merged ++ n ∷ []) incoming

-- The loop over the incoming edges.
unfoldable pub merge_edges : List Edge → List Edge → List Edge
merge_edges merged [] = merged
merge_edges merged (e ∷ incoming) =
    merge_edges (if any (same_edge e) merged then merged else merged ++ e ∷ []) incoming

unfoldable pub merge_graph_views : View → View → View
unfolding merge_nodes merge_edges
merge_graph_views existing incoming = record {
  nodes = merge_nodes existing.nodes incoming.nodes;
  edges = merge_edges existing.edges incoming.edges;
}

-- The neighbours of a node, in `neighbor_map`.
unfoldable pub neighbor_ids : String → List Edge → List String
neighbor_ids nid [] = []
neighbor_ids nid (e ∷ edges) =
    (if e.source == nid then e.target ∷ [] else [])
    ++ ((if e.target == nid then e.source ∷ [] else []) ++ neighbor_ids nid edges)

unfoldable pub mark_expandable : View → List String → List Node
unfolding neighbor_ids
mark_expandable graph visible_ids =
    map
      (λ (n : Node). record n {
        expandable = some (any (λ i. not (in_list i visible_ids)) (neighbor_ids n.id graph.edges));
      })
      graph.nodes
