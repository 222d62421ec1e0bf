-- ===== src/Pipelines/Nodes.antt =====
-- The rows of t_ingestion_pipeline_node, and `validate_pipeline_graph`.
use flavor_rag.Prelude.Dict.{Dict}
use flavor_rag.Prelude.Int.{ℤ}
use flavor_rag.Prelude.{
  ℕ, Bool, String, List, Option, ◌⊎◌, ◌∷◌, map, none, false, filter, inl, inr, if◌then◌else◌, [],
  some, ◌==◌, in_list, not, suc, is_nil, truthy, ◌||◌, zero,
}

-- A JSON value of a node's settings; the numbers are whole. Of a list or a dictionary only whether it
-- is empty is read.
pub data Setting : Type 0 where
  json_null : Setting
  truth : Bool → Setting
  number : ℤ → Setting
  text : String → Setting
  nested : Bool → Setting

pub record PipelineNode : Type 0 where
  pub pipeline_id : String
  pub node_id : String
  pub node_type : String
  pub next_node_id : Option String
  pub settings_json : Option (Dict Setting)
  pub create_time : ℕ
  pub deleted : Bool

-- The keys of `_NODE_HANDLERS`.
abbrev pub handler_names : List String
handler_names = "fetcher" ∷ "parser" ∷ "chunker" ∷ "enricher" ∷ "enhancer" ∷ "indexer" ∷ []

-- The exceptions. `too_deep` is the RecursionError of `visit`.
pub data GraphError : Type 0 where
  no_nodes duplicate_ids cyclic too_deep : GraphError
  unsupported dangling : String → GraphError

-- `node.next_node_id`, when it is truthy.
unfoldable pub next_of : PipelineNode → Option String
next_of n = elim n.next_node_id [ none ↦ none | some k ↦ if truthy k then some k else none ]

abbrev pub node_ids : List PipelineNode → List String
node_ids nodes = map (λ (n : PipelineNode). n.node_id) nodes

-- `next_by_id.get(node_id)`; the identifiers differ where this is called.
unfoldable pub next_by_id : List PipelineNode → String → Option String
next_by_id [] k = none
next_by_id (n ∷ nodes) k = if n.node_id == k then next_of n else next_by_id nodes k

unfoldable pub has_duplicates : List String → Bool
has_duplicates [] = false
has_duplicates (x ∷ xs) = in_list x xs || has_duplicates xs

abbrev pub is_dangling : List String → PipelineNode → Bool
is_dangling known n = elim (next_of n) [ none ↦ false | some k ↦ not (in_list k known) ]

-- The loop over the types and the links.
unfoldable pub first_fault : List String → List PipelineNode → Option GraphError
first_fault known [] = none
first_fault known (n ∷ nodes) =
    if not (in_list n.node_type handler_names)
    then some (unsupported n.node_type)
    else if is_dangling known n
    then some (dangling n.node_id)
    else first_fault known nodes

-- The two sets of the depth-first search.
pub record Marks : Type 0 where
  pub visiting : List String
  pub visited : List String

abbrev pub enter : String → Marks → Marks
enter node_id m = record m { visiting = node_id ∷ m.visiting }

abbrev pub leave : String → Marks → Marks
leave node_id m = record {
  visiting = filter (λ k. not (node_id == k)) m.visiting;
  visited = node_id ∷ m.visited;
}

-- What follows the call of `visit` for the next node.
abbrev pub left_after : String → GraphError ⊎ Marks → GraphError ⊎ Marks
left_after node_id (inl e) = inl e
left_after node_id (inr m) = inr (leave node_id m)

module _ (next : String → Option String) where
  -- `visit`; the number is how many calls the interpreter's stack still has room for.
  unfoldable pub visit : ℕ → Marks → String → GraphError ⊎ Marks
  visit zero m node_id = inl too_deep
  visit (suc depth) m node_id =
      if in_list node_id m.visiting
      then inl cyclic
      else if in_list node_id m.visited
      then inr m
      else elim (next node_id) [
        | none ↦ inr (leave node_id (enter node_id m))
        | some next_id ↦ left_after node_id (visit depth (enter node_id m) next_id)
      ]

  unfoldable pub visit_all : ℕ → Marks → List String → GraphError ⊎ Marks
  unfolding visit
  visit_all depth m [] = inr m
  visit_all depth m (node_id ∷ ids) = elim (visit depth m node_id) [
    | inl e ↦ inl e
    | inr m' ↦ visit_all depth m' ids
  ]

abbrev pub error_of : GraphError ⊎ Marks → Option GraphError
error_of (inl e) = some e
error_of (inr m) = none

-- The exception that is raised, if any.
unfoldable pub validate_pipeline_graph : ℕ → List PipelineNode → Option GraphError
unfolding visit_all first_fault has_duplicates next_by_id
validate_pipeline_graph depth nodes =
    if is_nil nodes
    then some no_nodes
    else if has_duplicates (node_ids nodes)
    then some duplicate_ids
    else elim (first_fault (node_ids nodes) nodes) [
      | some e ↦ some e
      | none ↦ error_of (
          visit_all (next_by_id nodes) depth (record { visiting = []; visited = [] })
            (node_ids nodes))
    ]
