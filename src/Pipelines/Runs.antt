-- ===== src/Pipelines/Runs.antt =====
-- What the run of a pipeline reports.
use flavor_rag.Pipelines.Rounds.{RoundEnd, run_round-RoundEnd, goes_on, breaks, crashes}
use flavor_rag.Prelude.Distinct.{length-map}
use flavor_rag.Pipelines.Chains.{Ends, Ends-lt}
use flavor_rag.Pipelines.Visits.{work, Ran, Queued, is_root, none_ran, node→next_by_id}
use flavor_rag.Pipelines.Engine.{
  run_queue, PipelineError, NodeRound, RunState, next_round, stopped, crashed, run_round,
  bad_setting, first_state, rounds, leads_to,
}
use flavor_rag.Pipelines.Validation.{IsPipeline, next_by_id→node}
use flavor_rag.Pipelines.Nodes.{PipelineNode, node_ids, next_by_id, next_of}
use flavor_rag.Prelude.{
  List, Option, ℕ, ◌⊎◌, ◌≡◌, [], ◌<◌, suc, some, arith, inr, inl, true, String, subst, Member, ◌∷◌,
  sym, refl, zero, false, Member-filter, eqb, Member-filter_test, length, Member→filter, filter,
  Bool-cases, Option-cases, ◌∙◌, ap, eq_iff, Member-map, ◌≤◌, length-filter-le, ◌+◌, none,
}
use flavor_rag.Pipelines.Retries.{Handlers, Context, limits_of}

module _ {C : Type 0} (handlers : Handlers C) (nodes : List PipelineNode)
    (valid : IsPipeline nodes) where
  -- How the loop ends: with no node left or at a failed one, or by a setting that is no number.
  pub data RunEnd : Option (PipelineError ⊎ RunState C) → Type 0 where
    completed :
        (p : RunState C) → Ran nodes p → Queued nodes p → p.queue ≡ [] → RunEnd (some (inr p))
    broken : (p : RunState C) → Ran nodes p → p.failed ≡ true → RunEnd (some (inr p))
    raising :
        (k : String) (n : PipelineNode)
        → Member n nodes
        → n.node_id ≡ k
        → limits_of handlers n ≡ none
        → RunEnd (some (inl (bad_setting k)))

  -- The rest of the loop behind a round.
  abbrev follow : ℕ → NodeRound C → Option (PipelineError ⊎ RunState C)
  follow fuel (next_round p) = run_queue handlers nodes fuel p
  follow fuel (stopped p) = some (inr p)
  follow fuel (crashed e) = some (inl e)

  run_queue_lem :
      (fuel : ℕ) (p : RunState C)
      → (p.queue ≡ []) × (run_queue handlers nodes (suc fuel) p ≡ some (inr p))
        ⊎ ((k : String) × (rest : List String) × (p.queue ≡ k ∷ rest)
            × (run_queue handlers nodes (suc fuel) p
                ≡ follow fuel (run_round handlers nodes k rest p)))
  unfolding run_queue
  run_queue_lem fuel p = of_queue p.queue refl
    where
      of_round :
          (o : NodeRound C)
          → (elim o [
            | next_round q ↦ run_queue handlers nodes fuel q
            | stopped q ↦ some (inr q)
            | crashed e ↦ some (inl e)
          ])
            ≡ follow fuel o
      of_round (next_round q) = refl
      of_round (stopped q) = refl
      of_round (crashed e) = refl

      of_queue :
          (xs : List String)
          → p.queue ≡ xs
          → (p.queue ≡ []) × (run_queue handlers nodes (suc fuel) p ≡ some (inr p))
            ⊎ ((k : String) × (rest : List String) × (p.queue ≡ k ∷ rest)
                × (run_queue handlers nodes (suc fuel) p
                    ≡ follow fuel (run_round handlers nodes k rest p)))
      of_queue [] e = inl (e, rw e refl)
      of_queue (k ∷ rest) e = inr (k, rest, e, rw e (of_round (run_round handlers nodes k rest p)))

  RoundEnd→RunEnd :
      (fuel : ℕ) (p : RunState C) (o : NodeRound C)
      → RoundEnd nodes handlers valid p o
      → ((q : RunState C)
          → Ran nodes q
          → Queued nodes q
          → work nodes q < work nodes p
          → RunEnd (run_queue handlers nodes fuel q))
      → RunEnd (follow fuel o)
  RoundEnd→RunEnd fuel p _ (goes_on q r s lt) later = later q r s lt
  RoundEnd→RunEnd fuel p _ (breaks q r h) later = broken q r h
  RoundEnd→RunEnd fuel p _ (crashes k n m e h) later = raising k n m e h

  run_queue-RunEnd :
      (fuel : ℕ) (p : RunState C)
      → work nodes p < fuel
      → Ran nodes p
      → Queued nodes p
      → RunEnd (run_queue handlers nodes fuel p)
  run_queue-RunEnd zero p lt r q = absurd (omega arith)
  run_queue-RunEnd (suc fuel) p lt r q = elim (run_queue_lem fuel p) [
    | inl (e, h) ↦ subst (λ o. RunEnd o) (sym h) (completed p r q e)
    | inr (k, rest, e, h) ↦
        subst (λ o. RunEnd o) (sym h)
          (RoundEnd→RunEnd fuel p (run_round handlers nodes k rest p)
            (run_round-RoundEnd nodes handlers valid k rest p r q e)
            (λ s u v w. run_queue-RunEnd fuel s (omega arith) u v))
  ]

  -- A node that is no root has a node that leads to it.
  predecessor :
      (x : String)
      → is_root nodes x ≡ false
      → (y : String) × Member y (node_ids nodes) × (next_by_id nodes y ≡ some x)
  predecessor x h =
      let (n, m, e) = some_leads nodes h in
      (
        n.node_id,
        Member-map (λ (k : PipelineNode). k.node_id) nodes n m,
        node→next_by_id nodes n valid.differing m ∙ leads_next n e,
      )
    where
      some_leads :
          (ns : List PipelineNode)
          → eqb (length (filter (leads_to x) ns)) 0 ≡ false
          → (n : PipelineNode) × Member n ns × (leads_to x n ≡ true)
      some_leads [] h = absurd (cc)
      some_leads (n ∷ ns) h = elim (Bool-cases (leads_to x n)) [
        | inl e ↦ (n, inl refl, e)
        | inr e ↦ let (o, m, f) = some_leads ns (rw e at h) in (o, inr m, f)
      ]

      leads_next : (n : PipelineNode) → leads_to x n ≡ true → next_of n ≡ some x
      leads_next n h = elim (Option-cases (next_of n)) [
        | inl e ↦ absurd (cc (rw (leads_to, e) at h))
        | inr (k, e) ↦ e ∙ ap some ((eq_iff k x).0 (rw (leads_to, e) at h))
      ]

  linked : (y z : String) → next_by_id nodes y ≡ some z → Member z (node_ids nodes)
  linked y z g = let (n, j, f, w) = next_by_id→node nodes y z g in valid.linked n z j w

  -- When the queue is empty every node has run.
  pub all_ran :
      (p : RunState C)
      → Queued nodes p
      → p.queue ≡ []
      → (x : String) → Member x (node_ids nodes)
      → Member x p.visited
  all_ran p q e x m =
      let (k, h) = valid.ends x m in back (length (node_ids nodes)) x k m h (omega arith)
    where
      ran_of : (x : String) → Member x p.visited ⊎ Member x p.queue → Member x p.visited
      ran_of x (inl i) = i
      ran_of x (inr i) = absurd (subst (λ xs. Member x xs) e i)

      back :
          (b : ℕ) (x : String) (k : ℕ)
          → Member x (node_ids nodes)
          → Ends (next_by_id nodes) k x
          → length (node_ids nodes) ≤ b + k
          → Member x p.visited
      back zero x k m h le =
          let lt = Ends-lt (next_by_id nodes) (node_ids nodes) linked k x m h in
          absurd (omega arith)
      back (suc b) x k m h le = elim (Bool-cases (is_root nodes x)) [
        | inl r ↦ ran_of x (q.roots x m r)
        | inr r ↦
            let (y, i, f) = predecessor x r in
            ran_of x (q.followed y x (back b y (suc k) i (x, f, h) (omega arith)) f)
      ]

  first_state-Ran : (context : Context C) → Ran nodes (first_state handlers nodes context)
  first_state-Ran context = record {
    differing = tt;
    within = λ x i. absurd i;
    follows = none_ran;
    results = refl;
    errors = refl;
    quiet = λ h. refl;
  }

  first_state-Queued : (context : Context C) → Queued nodes (first_state handlers nodes context)
  first_state-Queued context = record {
    sources = λ x i. (
      Member-filter (is_root nodes) x (node_ids nodes) i,
      inl (Member-filter_test (is_root nodes) x (node_ids nodes) i),
    );
    roots = λ x i h. inr (Member→filter (is_root nodes) x (node_ids nodes) i h);
    followed = λ x y i h. absurd i;
  }

  pub run-RunEnd :
      (context : Context C)
      → RunEnd
          (run_queue handlers nodes (rounds handlers nodes) (first_state handlers nodes context))
  run-RunEnd context =
      run_queue-RunEnd (rounds handlers nodes) (first_state handlers nodes context)
        (omega (
          arith,
          length-filter-le (is_root nodes) (node_ids nodes),
          length-map (λ (n : PipelineNode). n.node_id) nodes,
        ))
        (first_state-Ran context) (first_state-Queued context)
