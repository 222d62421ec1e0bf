-- ===== src/Pipelines/Engine.antt =====
-- `IngestionEngine`: `_run`, `_execute_and_capture` and `execute_pipeline`. The rows of other tables,
-- the clocks, the ids and the log are not modelled.
use flavor_rag.Prelude.Sort.{sort}
use flavor_rag.Jobs.Store.{find?}
use flavor_rag.Pipelines.Retries.{
  Handlers, NodeResult, NodeRun, Context, run_node, settings_of, is_error,
}
use flavor_rag.Prelude.Dict.{Dict, get, set}
use flavor_rag.Prelude.{
  List, Bool, ℕ, Option, filter, false, length, eqb, ◌∷◌, ◌++◌, if◌then◌else◌, ◌⊎◌, ◌*◌, [], not,
  take, ◌==◌, ◌||◌, in_list, none, ◌+◌, ◌&&◌, some, leb, true, suc, inl, inr, zero, truthy,
}
use flavor_rag.Pipelines.Nodes.{
  json_null, GraphError, Setting, PipelineNode, next_of, validate_pipeline_graph, truth, node_ids,
  number, text, nested,
}
use Prim.Native.String.{String}
use flavor_rag.Prelude.Int.{pos, negsuc}

pub record Pipeline : Type 0 where
  pub id : String
  pub tenant_id : String
  pub enabled : Bool
  pub deleted : Bool

-- The exceptions of `_run`.
pub data PipelineError : Type 0 where
  missing_pipeline : PipelineError
  bad_graph : GraphError → PipelineError
  bad_setting unknown_node : String → PipelineError

-- A row of t_ingestion_task_node.
pub record TaskNode : Type 0 where
  pub node_id : String
  pub node_order : ℕ
  pub attempt : ℕ
  pub status : String
  pub error_message : List ℕ

-- The variables of the loop of `_run`. `failed` is that `final_status` is "error".
pub record RunState (C : Type 0) : Type 0 where
  pub queue : List String
  pub visited : List String
  pub node_results : List NodeResult
  pub task_nodes : List TaskNode
  pub failed : Bool
  pub final_error : List ℕ
  pub context : Context C

-- How a round ends: the loop goes on, it is left by `break`, or an exception leaves it.
pub data NodeRound (C : Type 0) : Type 0 where
  next_round stopped : RunState C → NodeRound C
  crashed : PipelineError → NodeRound C

abbrev pub find_node : List PipelineNode → String → Option PipelineNode
find_node nodes k = find? (λ (n : PipelineNode). n.node_id == k) nodes

-- `bool(value)`
abbrev pub is_truthy : Setting → Bool
is_truthy json_null = false
is_truthy (truth b) = b
is_truthy (number z) = elim z [ pos n ↦ not (eqb n 0) | negsuc n ↦ true ]
is_truthy (text s) = truthy s
is_truthy (nested filled) = filled

-- `{**settings, **more}`
abbrev pub merge_settings : Dict Setting → Dict Setting → Dict Setting
merge_settings settings [] = settings
merge_settings settings ((k, v) ∷ more) = merge_settings (set settings k v) more

abbrev pub stops_on_error : Dict Setting → Bool
stops_on_error settings = elim (get settings "stop_on_error") [ none ↦ true | some v ↦ is_truthy v ]

-- `incoming`, and the first queue.
abbrev pub leads_to : String → PipelineNode → Bool
leads_to k n = elim (next_of n) [ none ↦ false | some m ↦ m == k ]

abbrev pub incoming : List PipelineNode → String → ℕ
incoming nodes k = length (filter (leads_to k) nodes)

abbrev pub first_queue : List PipelineNode → List String
first_queue nodes = filter (λ k. eqb (incoming nodes k) 0) (node_ids nodes)

-- The identifier of the next node as the loop appends it.
abbrev pub appended : PipelineNode → List String → List String
appended n visited = elim (next_of n) [
  | none ↦ []
  | some k ↦ if in_list k visited then [] else k ∷ []
]

-- "流水线存在不可达节点，执行未完整结束"
abbrev pub unreachable_message : List ℕ
unreachable_message =
    27969 ∷ 27700 ∷ 32447 ∷ 23384 ∷ 22312 ∷ 19981 ∷ 21487 ∷ 36798 ∷ 33410 ∷ 28857 ∷ 65292 ∷ 25191
    ∷ 34892 ∷ 26410 ∷ 23436 ∷ 25972 ∷ 32467 ∷ 26463 ∷ []

module _ {C : Type 0} (handlers : Handlers C) (nodes : List PipelineNode) where
  -- The state behind the run of a node.
  abbrev pub recorded : PipelineNode → List String → RunState C → NodeRun C → RunState C
  recorded n rest p run =
      let result = record run.result { node_id = n.node_id; node_type = n.node_type } in
      let visited = p.visited ++ n.node_id ∷ [] in
      record {
        queue = rest;
        visited = visited;
        node_results = p.node_results ++ result ∷ [];
        task_nodes =
            p.task_nodes
            ++ record {
              node_id = n.node_id;
              node_order = length visited;
              attempt = run.attempts;
              status = result.status;
              error_message = result.error_message;
            }
              ∷ [];
        failed = p.failed || is_error result;
        final_error = if is_error result then result.error_message else p.final_error;
        context = run.context;
      }

  -- The end of a round, from the state behind the run of its node.
  abbrev pub decided : PipelineNode → List String → RunState C → NodeRun C → NodeRound C
  decided n rest p run =
      let q = recorded n rest p run in
      if is_error run.result && stops_on_error run.context.settings
      then stopped q
      else next_round (record q { queue = rest ++ appended n q.visited })

  abbrev pub with_settings : PipelineNode → Context C → Context C
  with_settings n context = record context {
    settings = merge_settings context.settings (settings_of n);
  }

  -- A round, for the first entry of the queue and the others.
  unfoldable pub run_round : String → List String → RunState C → NodeRound C
  unfolding run_node find?
  run_round k rest p =
      if in_list k p.visited
      then next_round (record p { queue = rest })
      else elim (find_node nodes k) [
        | none ↦ crashed (unknown_node k)
        | some n ↦ elim (run_node handlers n (with_settings n p.context)) [
          | none ↦ crashed (bad_setting k)
          | some run ↦ decided n rest p run
        ]
      ]

  -- The loop, on fuel; `none` is that the fuel is used up.
  unfoldable pub run_queue : ℕ → RunState C → Option (PipelineError ⊎ RunState C)
  unfolding run_round
  run_queue zero p = none
  run_queue (suc fuel) p = elim p.queue [
    | [] ↦ some (inr p)
    | k ∷ rest ↦ elim (run_round k rest p) [
      | next_round q ↦ run_queue fuel q
      | stopped q ↦ some (inr q)
      | crashed e ↦ some (inl e)
    ]
  ]

  -- Two rounds for each node and one more.
  abbrev pub rounds : ℕ
  rounds = 2 * length nodes + 1

  abbrev pub first_state : Context C → RunState C
  first_state context = record {
    queue = first_queue nodes;
    visited = [];
    node_results = [];
    task_nodes = [];
    failed = false;
    final_error = [];
    context = context;
  }

-- What `PipelineResult` and the row of the task report.
pub record Report : Type 0 where
  pub status : String
  pub error_message : List ℕ
  pub chunk_count : ℕ
  pub node_results : List NodeResult

abbrev pub failure_report : List ℕ → Report
failure_report m = record {
  status = "error";
  error_message = m;
  chunk_count = 0;
  node_results = [];
}

module _ {C : Type 0} (handlers : Handlers C) (depth : ℕ)
    (exception_text : PipelineError → List ℕ) where
  -- The report of a run that ends without an exception.
  unfoldable pub report_of : List PipelineNode → RunState C → Report
  report_of nodes p =
      let incomplete = not p.failed && not (eqb (length p.visited) (length nodes)) in
      record {
        status = if p.failed || incomplete then "error" else "success";
        error_message = if incomplete then unreachable_message else p.final_error;
        chunk_count = p.context.chunk_count;
        node_results = p.node_results;
      }

  abbrev pub captured : PipelineError → Report
  captured e = failure_report (take 2000 (exception_text e))

  -- The validation and the loop, with the exceptions caught.
  unfoldable pub run_nodes : List PipelineNode → Context C → Option Report
  unfolding run_queue report_of validate_pipeline_graph
  run_nodes nodes context = elim (validate_pipeline_graph depth nodes) [
    | some e ↦ some (captured (bad_graph e))
    | none ↦
        elim (run_queue handlers nodes (rounds handlers nodes)
          (first_state handlers nodes context)) [
            | none ↦ none
            | some (inl e) ↦ some (captured e)
            | some (inr p) ↦ some (report_of nodes p)
          ]
  ]

  -- The nodes of a pipeline in the order in which they were created.
  unfoldable pub nodes_of : String → List PipelineNode → List PipelineNode
  unfolding sort
  nodes_of pipeline_id rows =
      sort (λ (m : PipelineNode) (n : PipelineNode). leb m.create_time n.create_time)
        (filter (λ (n : PipelineNode). (n.pipeline_id == pipeline_id) && not n.deleted) rows)

  -- `execute_pipeline`, for the pipeline and the tenant of the task.
  unfoldable pub execute_pipeline :
      List Pipeline → List PipelineNode → String → String → Context C → Option Report
  unfolding run_nodes nodes_of find?
  execute_pipeline pipelines rows pipeline_id tenant_id context =
      elim (find?
        (λ (p : Pipeline).
          (p.id == pipeline_id) && (p.tenant_id == tenant_id) && p.enabled && not p.deleted)
        pipelines) [
          | none ↦ some (captured missing_pipeline)
          | some p ↦ run_nodes (nodes_of pipeline_id rows) context
        ]
