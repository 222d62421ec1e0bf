-- ===== src/Pipelines/Tests.antt =====
-- Small pipelines, run by handlers that always succeed.
use flavor_rag.Pipelines.Bounds.{run_node_bounds}
use flavor_rag.Pipelines.Validation.{IsPipeline, validate_pipeline_graph_lem}
use flavor_rag.Pipelines.Reports.{Reports, run_nodes_lem}
use flavor_rag.Pipelines.Engine.{run_nodes, Report}
use flavor_rag.Pipelines.Nodes.{validate_pipeline_graph, PipelineNode, cyclic, next_of, dangling}
use flavor_rag.Pipelines.Retries.{
  timed_out, NodeResult, Handlers, Context, finished, Limits, limits_of, timeout_message, NodeRun,
  run_node, is_error,
}
use flavor_rag.Prelude.{
  List, Option, [], none, ◌≡◌, some, false, ◌∷◌, map, refl, ◌↔◌, ◌≤◌, ◌+◌, arith, ◌⊎◌, length, ℕ,
}
use Prim.Native.String.{String}
use mathlib.Core.Option

abbrev node : String → Option String → PipelineNode
node id next = record {
  pipeline_id = "p";
  node_id = id;
  node_type = "parser";
  next_node_id = next;
  settings_json = none;
  create_time = 0;
  deleted = false;
}

-- a and d lead to c, and b to d.
abbrev joined : List PipelineNode
joined = node "a" (some "c") ∷ node "b" (some "d") ∷ node "c" none ∷ node "d" (some "c") ∷ []

abbrev done : NodeResult
done = record { node_id = ""; node_type = ""; status = "success"; message = []; error_message = [] }

abbrev all_succeed : Handlers (Unit {0})
all_succeed = record {
  int_of_text = λ s. none;
  float_of_text = λ s. none;
  call_handler = λ node_type context. (finished done, context);
}

abbrev empty_context : Context (Unit {0})
empty_context = record { settings = []; chunk_count = 0; content = tt }

joined_valid : validate_pipeline_graph 5 joined ≡ none
unfolding validate_pipeline_graph next_of
joined_valid = refl

circle_invalid :
    validate_pipeline_graph 5 (node "a" (some "b") ∷ node "b" (some "a") ∷ []) ≡ some cyclic
unfolding validate_pipeline_graph next_of
circle_invalid = refl

-- c runs before d, from which it has its input.
joined_order :
    Option.map
      (λ (r : Report). map (λ (n : NodeResult). n.node_id) r.node_results)
      (run_nodes all_succeed 5 (λ e. []) joined empty_context)
    ≡ some ("a" ∷ "b" ∷ "c" ∷ "d" ∷ [])
unfolding run_nodes next_of
joined_order = refl

abbrev never_succeeds : Handlers (Unit {0})
never_succeeds = record {
  int_of_text = λ s. none;
  float_of_text = λ s. none;
  call_handler = λ node_type context. (timed_out, context);
}

-- Links to nodes that are not there, and a retried node whose last attempt fails.
dangling_invalid : validate_pipeline_graph 5 (node "a" (some "b") ∷ []) ≡ some (dangling "a")
unfolding validate_pipeline_graph next_of
dangling_invalid = refl

abbrev parser_limits : Limits
parser_limits = record { max_retries = 1; timeout_ms = 120000; backoff_ms = 250 }

parser_limits_lem : limits_of never_succeeds (node "a" none) ≡ some parser_limits
unfolding limits_of
parser_limits_lem = refl

failing_run :
    Option.map {B = String × List ℕ}
      (λ (r : Report). (r.status, r.error_message))
      (run_nodes never_succeeds 5 (λ e. []) joined empty_context)
    ≡ some ("error", timeout_message 120000)
unfolding run_nodes next_of
failing_run = refl

validate_pipeline_graph_lem_example : (validate_pipeline_graph 5 joined ≡ none) ↔ IsPipeline joined
validate_pipeline_graph_lem_example = validate_pipeline_graph_lem 5 joined (omega arith)

run_nodes_lem_example :
    Reports all_succeed 5 (λ e. []) joined (run_nodes all_succeed 5 (λ e. []) joined empty_context)
run_nodes_lem_example = run_nodes_lem all_succeed 5 (λ e. []) joined empty_context joined_valid

run_node_bounds_example :
    (run : NodeRun (Unit {0})) × (run_node never_succeeds (node "a" none) empty_context ≡ some run)
    × (1 ≤ run.attempts)
    × (run.attempts ≤ 1 + 1)
    × (1 ≤ 5)
    × (run.slept_ms ≤ 310000)
    × ((is_error run.result ≡ false)
        ⊎ (run.attempts ≡ 1 + 1) × (length run.result.error_message ≤ 2000))
run_node_bounds_example =
    run_node_bounds never_succeeds (node "a" none) empty_context parser_limits parser_limits_lem
