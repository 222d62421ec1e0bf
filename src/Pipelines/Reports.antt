-- ===== src/Pipelines/Reports.antt =====
-- What the run of a pipeline reports.
use flavor_rag.Pipelines.Runs.{RunEnd, completed, all_ran, run-RunEnd, broken, raising}
use flavor_rag.Pipelines.Visits.{Follows, Ran, Ran-room}
use flavor_rag.Pipelines.Validation.{IsPipeline, accepted-IsPipeline}
use flavor_rag.Prelude.Distinct.{Distinct, Distinct-le, length-map}
use flavor_rag.Pipelines.Nodes.{PipelineNode, node_ids, validate_pipeline_graph}
use flavor_rag.Pipelines.Retries.{Handlers, NodeResult, is_error, Context, limits_of}
use flavor_rag.Prelude.{
  List, String, Bool, ℕ, map, any, Member, Option, ◌≡◌, ◌⊎◌, some, none, false, eqb, true, inl, [],
  length, ◌∙◌, subst, inr, Bool-cases, sym, refl, arith,
}
use flavor_rag.Pipelines.Engine.{
  Report, PipelineError, RunState, report_of, run_nodes, run_queue, captured, rounds, bad_setting,
  first_state,
}

abbrev pub reported : Report → List String
reported r = map (λ (n : NodeResult). n.node_id) r.node_results

abbrev pub any_failed : Report → Bool
any_failed r = any is_error r.node_results

-- What a report says of the nodes that ran.
pub record IsReport (nodes : List PipelineNode) (r : Report) : Type 0 where
  pub differing : Distinct (reported r)
  pub within : (x : String) → Member x (reported r) → Member x (node_ids nodes)
  pub follows : Follows nodes (reported r)
  pub outcome :
      (any_failed r ≡ true) × (r.status ≡ "error")
      ⊎ (any_failed r ≡ false)
        × (r.status ≡ "success")
        × (r.error_message ≡ [])
        × ((x : String) → Member x (node_ids nodes) → Member x (reported r))

module _ {C : Type 0} (handlers : Handlers C) (depth : ℕ) (exception_text : PipelineError → List ℕ)
    (nodes : List PipelineNode) where
  -- How `run_nodes` goes on behind the loop.
  abbrev reported_end : Option (PipelineError ⊎ RunState C) → Option Report
  reported_end none = none
  reported_end (some (inl e)) = some (captured handlers depth exception_text e)
  reported_end (some (inr p)) = some (report_of handlers depth exception_text nodes p)

  -- A report, or the exception of a node with a setting that is no number.
  abbrev pub Reports : Option Report → Type 0
  Reports o =
      ((r : Report) × (o ≡ some r) × IsReport nodes r)
      ⊎ ((n : PipelineNode) × Member n nodes
          × (limits_of handlers n ≡ none)
          × (o ≡ some (captured handlers depth exception_text (bad_setting n.node_id))))

  reported_end_lem :
      (context : Context C)
      → validate_pipeline_graph depth nodes ≡ none
      → run_nodes handlers depth exception_text nodes context
        ≡ reported_end
            (run_queue handlers nodes (rounds handlers nodes) (first_state handlers nodes context))
  unfolding run_nodes
  reported_end_lem context h =
      rw (run_nodes, h)
        (of_end
          (run_queue handlers nodes (rounds handlers nodes) (first_state handlers nodes context)))
    where
      of_end :
          (o : Option (PipelineError ⊎ RunState C))
          → (elim o [
            | none ↦ none
            | some (inl e) ↦ some (captured handlers depth exception_text e)
            | some (inr p) ↦ some (report_of handlers depth exception_text nodes p)
          ])
            ≡ reported_end o
      of_end none = refl
      of_end (some (inl e)) = refl
      of_end (some (inr p)) = refl

  module _ (valid : IsPipeline nodes) where
    -- The test for nodes that were not reached fails when all have run.
    all_counted :
        (p : RunState C)
        → Ran nodes p
        → ((x : String) → Member x (node_ids nodes) → Member x p.visited)
        → eqb (length p.visited) (length nodes) ≡ true
    all_counted p r all =
        let le = Ran-room nodes p r in
        let ge = Distinct-le (node_ids nodes) p.visited valid.differing all in
        let same : length p.visited ≡ length nodes =
          omega (arith, le, ge, length-map (λ (n : PipelineNode). n.node_id) nodes) in
        ground arith

    report_of_failed :
        (p : RunState C)
        → Ran nodes p
        → p.failed ≡ true
        → IsReport nodes (report_of handlers depth exception_text nodes p)
    unfolding report_of
    report_of_failed p r h =
        let failed = r.errors ∙ h in
        record {
          differing = rw r.results r.differing;
          within = rw r.results r.within;
          follows = rw r.results r.follows;
          outcome = inl (failed, rw h refl);
        }

    report_of_complete :
        (p : RunState C)
        → Ran nodes p
        → p.failed ≡ false
        → ((x : String) → Member x (node_ids nodes) → Member x p.visited)
        → IsReport nodes (report_of handlers depth exception_text nodes p)
    unfolding report_of
    report_of_complete p r h all =
        let failed = r.errors ∙ h in
        let counted = all_counted p r all in
        record {
          differing = rw r.results r.differing;
          within = rw r.results r.within;
          follows = rw r.results r.follows;
          outcome =
              inr (failed, rw (h, counted) refl, rw (h, counted) (r.quiet h), rw r.results all);
        }

    RunEnd-Reports :
        (o : Option (PipelineError ⊎ RunState C))
        → RunEnd handlers nodes valid o
        → Reports (reported_end o)
    RunEnd-Reports _ (completed p r q e) = elim (Bool-cases p.failed) [
      | inl h ↦ inl (report_of handlers depth exception_text nodes p, refl, report_of_failed p r h)
      | inr h ↦ inl (
        report_of handlers depth exception_text nodes p,
        refl,
        report_of_complete p r h (all_ran handlers nodes valid p q e),
      )
    ]
    RunEnd-Reports _ (broken p r h) =
        inl (report_of handlers depth exception_text nodes p, refl, report_of_failed p r h)
    RunEnd-Reports _ (raising k n m e h) = inr (n, m, h, rw e refl)

-- The run of a pipeline that passes the validation comes to an end. Unless it raises, because a node
-- of the pipeline has limits that are no numbers, its report names nodes of the pipeline, each at most
-- once, in an order in which each is a node that no link leads to or comes behind a node that links to
-- it; its status is "error" when a node failed and "success" otherwise; and when no node failed, every
-- node ran and the message is empty: nodes are never found unreachable.
pub run_nodes_lem :
    {C : Type 0} (handlers : Handlers C) (depth : ℕ) (exception_text : PipelineError → List ℕ)
    (nodes : List PipelineNode) (context : Context C)
    → validate_pipeline_graph depth nodes ≡ none
    → Reports handlers depth exception_text nodes
        (run_nodes handlers depth exception_text nodes context)
run_nodes_lem handlers depth exception_text nodes context h =
    let valid = accepted-IsPipeline depth nodes h in
    subst (Reports handlers depth exception_text nodes)
      (sym (reported_end_lem handlers depth exception_text nodes context h))
      (RunEnd-Reports handlers depth exception_text nodes valid _
        (run-RunEnd handlers nodes valid context))
