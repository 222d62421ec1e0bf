-- ===== src/Graph/Expansion.antt =====
-- `expand_neighbors`: a breadth-first search with a depth and a limit. An edge is told apart by its place.
use flavor_rag.Prelude.{
  is_nil, ℕ, suc, zero, String, List, Bool, true, false, if◌then◌else◌, ◌&&◌, not, ◌==◌, eqb, leb,
  in_list, ◌+◌, [], ◌∷◌, ◌++◌, length, map, any, take,
}
use flavor_rag.Graph.Views.{Node, Edge, View}

-- An entry of the adjacency: the neighbour, the edge, and its place in the graph's edges.
pub record Link : Type 0 where
  pub neighbor_id : String
  pub edge : Edge
  pub edge_idx : ℕ

abbrev pub link : String → Edge → ℕ → Link
link neighbor e i = record { neighbor_id = neighbor; edge = e; edge_idx = i }

-- `adjacency.get(current, [])`
unfoldable pub links_of : String → ℕ → List Edge → List Link
links_of current i [] = []
links_of current i (e ∷ edges) =
    (if e.source == current then link e.target e i ∷ [] else [])
    ++ ((if e.target == current then link e.source e i ∷ [] else [])
        ++ links_of current (i + 1) edges)

-- The variables of the search.
pub record Search : Type 0 where
  pub visited : List String
  pub discovered_nodes : List Node
  pub discovered_edges : List Edge
  pub seen_edges : List ℕ
  pub next_frontier : List String

-- The node with an identifier; of two with one identifier `nodes_by_id` has the last one.
unfoldable pub node_of : String → List Node → List Node
node_of nid [] = []
node_of nid (n ∷ nodes) =
    let later = node_of nid nodes in if is_nil later && (n.id == nid) then n ∷ [] else later

module _ (graph : View) (excluded : List String) (limit : ℕ) where
  abbrev pub is_full : Search → Bool
  is_full s = leb limit (length s.discovered_nodes)

  abbrev pub seen_index : ℕ → List ℕ → Bool
  seen_index i seen = any (λ k. eqb i k) seen

  -- What an edge does before the limit is looked at: the state, and whether its neighbour is new.
  unfoldable pub take_link : Search → Link → Search
  unfolding node_of
  take_link s l =
      let fresh = not (in_list l.neighbor_id s.visited) && not (in_list l.neighbor_id excluded) in
      let seen = seen_index l.edge_idx s.seen_edges in
      let edges =
        if fresh && not seen then s.discovered_edges ++ l.edge ∷ [] else s.discovered_edges in
      let marked = if seen then s.seen_edges else s.seen_edges ++ l.edge_idx ∷ [] in
      if fresh
      then record {
        visited = s.visited ++ l.neighbor_id ∷ [];
        discovered_nodes = s.discovered_nodes ++ node_of l.neighbor_id graph.nodes;
        discovered_edges = edges;
        seen_edges = marked;
        next_frontier = s.next_frontier ++ l.neighbor_id ∷ [];
      }
      else record s { discovered_edges = edges; seen_edges = marked }

  abbrev pub is_fresh : Search → Link → Bool
  is_fresh s l = not (in_list l.neighbor_id s.visited) && not (in_list l.neighbor_id excluded)

  -- The loop over the edges of a node; it stops behind a new neighbour when the limit is reached.
  unfoldable pub take_links : Search → List Link → Search
  unfolding take_link
  take_links s [] = s
  take_links s (l ∷ links) =
      let next = take_link s l in
      elim (is_fresh s l && is_full next) [ true ↦ next | false ↦ take_links next links ]

  -- The loop over the frontier.
  unfoldable pub take_frontier : Search → List String → Search
  unfolding take_links links_of
  take_frontier s [] = s
  take_frontier s (current ∷ frontier) =
      let next = take_links s (links_of current 0 graph.edges) in
      elim (is_full next) [ true ↦ next | false ↦ take_frontier next frontier ]

  -- The loop over the depths.
  unfoldable pub search_depths : ℕ → Search → Search
  unfolding take_frontier
  search_depths zero s = s
  search_depths (suc depth) s =
      let next = take_frontier (record s { next_frontier = [] }) s.next_frontier in
      elim (is_nil s.next_frontier) [
        | true ↦ s
        | false ↦ elim (is_full next) [ true ↦ next | false ↦ search_depths depth next ]
      ]

  unfoldable pub expand_neighbors : String → ℕ → View
  unfolding search_depths
  expand_neighbors node_id depth =
      let found = search_depths depth (record {
        visited = node_id ∷ [];
        discovered_nodes = [];
        discovered_edges = [];
        seen_edges = [];
        next_frontier = node_id ∷ [];
      }) in
      if in_list node_id (map (λ (n : Node). n.id) graph.nodes)
      then record { nodes = take limit found.discovered_nodes; edges = found.discovered_edges }
      else record { nodes = []; edges = [] }
