-- ===== src/Pipelines/Rounds.antt =====
-- Every round of the loop of `_run` keeps its invariant.
use flavor_rag.Prelude.Distinct.{Distinct-append_last}
use flavor_rag.Prelude.{
  in_list, ◌≡◌, ◌≤◌, false, ◌∷◌, ◌<◌, Option-cases, Member, ◌⊎◌, true, inl, ◌++◌, inr, arith, none,
  Bool, [], subst, Bool-cases, Member-append_left, Member-append_right, sym, in_list→Member, some,
  length-append, ap, Member-append, ◌∙◌, ◌&&◌, List, length, refl,
}
use flavor_rag.Pipelines.Visits.{
  Queued, Ran, work, Source, Ran-room, find_node_lem, then_ran, Source-mono, any-append,
}
use flavor_rag.Pipelines.Engine.{
  run_round, RunState, NodeRound, appended, recorded, next_round, stopped, decided, crashed,
  bad_setting, with_settings, stops_on_error,
}
use Prim.Native.String.{String}
use flavor_rag.Pipelines.Validation.{IsPipeline}
use flavor_rag.Pipelines.Retries.{Handlers, NodeRun, Context, run_node, limits_of, is_error}
use flavor_rag.Pipelines.Nodes.{PipelineNode, next_of, node_ids, next_by_id}
use mathlib.Core.List.{map-append}

module _ (nodes : List PipelineNode) where
  module _ {C : Type 0} (handlers : Handlers C) (valid : IsPipeline nodes) where
    module _ (n : PipelineNode) (rest : List String) (p : RunState C) (run : NodeRun C) where
      abbrev after : List String → RunState C
      after queue = recorded handlers nodes n queue p run

      recorded-Ran :
          (queue : List String)
          → Ran nodes p
          → in_list n.node_id p.visited ≡ false
          → Member n.node_id (node_ids nodes)
          → Source nodes p.visited n.node_id
          → Ran nodes (after queue)
      recorded-Ran queue r fresh m source = record {
        differing = Distinct-append_last n.node_id p.visited r.differing fresh;
        within = λ x i. elim (Member-append x p.visited (n.node_id ∷ []) i) [
          | inl j ↦ r.within x j
          | inr j ↦ elim j [ inl e ↦ rw e m | inr k ↦ absurd k ]
        ];
        follows = then_ran p.visited n.node_id _ r.follows source refl;
        results = map-append _ p.node_results _ ∙ ap (λ xs. xs ++ n.node_id ∷ []) r.results;
        errors = any-append is_error p.node_results _ ∙ rw r.errors (ground arith);
        quiet = λ h. quiet_lem (is_error run.result) refl h;
      }
        where
          quiet_lem :
              (b : Bool)
              → is_error run.result ≡ b
              → (after queue).failed ≡ false
              → (after queue).final_error ≡ []
          quiet_lem true e h = absurd (ground arith)
          quiet_lem false e h = rw e (r.quiet (ground arith))

      moved :
          (queue : List String) (x : String)
          → p.queue ≡ n.node_id ∷ rest
          → Member x p.visited ⊎ Member x p.queue
          → Member x (p.visited ++ n.node_id ∷ []) ⊎ Member x (rest ++ queue)
      moved queue x e (inl m) = inl (Member-append_left x p.visited (n.node_id ∷ []) m)
      moved queue x e (inr m) = elim (subst (λ xs. Member x xs) e m) [
        | inl f ↦ inl (Member-append_right x p.visited (n.node_id ∷ []) (inl f))
        | inr i ↦ inr (Member-append_left x rest queue i)
      ]

      -- The queue behind a node that ran.
      recorded-Queued :
          Queued nodes p
          → p.queue ≡ n.node_id ∷ rest
          → Member n nodes
          → next_by_id nodes n.node_id ≡ next_of n
          → Queued nodes (after (rest ++ appended n (p.visited ++ n.node_id ∷ [])))
      recorded-Queued q e m same = record {
        sources = λ x i. elim (Member-append x rest (appended n visited) i) [
          | inl j ↦
              let (k, s) = q.sources x (subst (λ xs. Member x xs) (sym e) (inr j)) in
              (k, Source-mono nodes p.visited (n.node_id ∷ []) x s)
          | inr j ↦
              let next = appended_next x j in
              (valid.linked n x m next, inr (n.node_id, last_visited, same ∙ next))
        ];
        roots = λ x i h. moved (appended n visited) x e (q.roots x i h);
        followed = λ x y i h. elim (Member-append x p.visited (n.node_id ∷ []) i) [
          | inl j ↦ moved (appended n visited) y e (q.followed x y j h)
          | inr j ↦ elim j [ inl f ↦ next_kept y (sym same ∙ (rw f at h)) | inr k ↦ absurd k ]
        ];
      }
        where
          visited : List String
          visited = p.visited ++ n.node_id ∷ []

          last_visited : Member n.node_id visited
          last_visited = Member-append_right n.node_id p.visited (n.node_id ∷ []) (inl refl)

          appended_next : (x : String) → Member x (appended n visited) → next_of n ≡ some x
          appended_next x j = elim (Option-cases (next_of n)) [
            | inl f ↦ absurd (rw (appended, f) at j)
            | inr (k, f) ↦ elim (Bool-cases (in_list k visited)) [
              | inl g ↦ absurd (rw (appended, f, g) at j)
              | inr g ↦ elim (rw (appended, f, g) at j) [
                | inl s ↦ f ∙ ap some (sym s)
                | inr l ↦ absurd l
              ]
            ]
          ]

          next_kept :
              (y : String)
              → next_of n ≡ some y
              → Member y visited ⊎ Member y (rest ++ appended n visited)
          next_kept y f = elim (Bool-cases (in_list y visited)) [
            | inl g ↦ inl (in_list→Member y visited g)
            | inr g ↦
                inr
                  (Member-append_right y rest (appended n visited) (rw (appended, f, g) (inl refl)))
          ]

    -- How a round ends, from a state `p` whose queue is not empty.
    pub data RoundEnd (p : RunState C) : NodeRound C → Type 0 where
      goes_on :
          (q : RunState C)
          → Ran nodes q
          → Queued nodes q
          → work nodes q < work nodes p
          → RoundEnd p (next_round q)
      breaks : (q : RunState C) → Ran nodes q → q.failed ≡ true → RoundEnd p (stopped q)
      crashes :
          (k : String) (n : PipelineNode)
          → Member n nodes
          → n.node_id ≡ k
          → limits_of handlers n ≡ none
          → RoundEnd p (crashed (bad_setting k))

    skipped-Queued :
        (k : String) (rest : List String) (p : RunState C)
        → Queued nodes p
        → p.queue ≡ k ∷ rest
        → Member k p.visited
        → Queued nodes (record p { queue = rest })
    skipped-Queued k rest p q e m = record {
      sources = λ x i. q.sources x (subst (λ xs. Member x xs) (sym e) (inr i));
      roots = λ x i h. still x (q.roots x i h);
      followed = λ x y i h. still y (q.followed x y i h);
    }
      where
        still :
            (x : String)
            → Member x p.visited ⊎ Member x p.queue
            → Member x p.visited ⊎ Member x rest
        still x (inl i) = inl i
        still x (inr i) = elim (subst (λ xs. Member x xs) e i) [
          | inl f ↦ inl (rw f m)
          | inr j ↦ inr j
        ]

    length-appended : (n : PipelineNode) (visited : List String) → length (appended n visited) ≤ 1
    length-appended n visited = elim (Option-cases (next_of n)) [
      | inl e ↦ rw (appended, e) (omega arith)
      | inr (k, e) ↦ elim (Bool-cases (in_list k visited)) [
        | inl f ↦ rw (appended, e, f) (omega arith)
        | inr f ↦ rw (appended, e, f) (omega arith)
      ]
    ]

    decided-RoundEnd :
        (n : PipelineNode) (rest : List String) (p : RunState C) (run : NodeRun C)
        → Ran nodes p
        → Queued nodes p
        → p.queue ≡ n.node_id ∷ rest
        → Member n nodes
        → next_by_id nodes n.node_id ≡ next_of n
        → in_list n.node_id p.visited ≡ false
        → RoundEnd p (decided handlers nodes n rest p run)
    decided-RoundEnd n rest p run r q e m same fresh =
        elim (Bool-cases (is_error run.result && stops_on_error run.context.settings)) [
          | inl h ↦ rw h (breaks (after n rest p run rest) (ran rest) (ground arith))
          | inr h ↦ rw h (
              goes_on (after n rest p run queue) (ran queue)
                (recorded-Queued n rest p run q e m same) smaller)
        ]
      where
        visited : List String
        visited = p.visited ++ n.node_id ∷ []

        queue : List String
        queue = rest ++ appended n visited

        first : Member n.node_id (node_ids nodes) × Source nodes p.visited n.node_id
        first = q.sources n.node_id (subst (λ xs. Member n.node_id xs) (sym e) (inl refl))

        ran : (xs : List String) → Ran nodes (after n rest p run xs)
        ran xs = recorded-Ran n rest p run xs r fresh first.0 first.1

        smaller : work nodes (after n rest p run queue) < work nodes p
        smaller = omega (
          arith,
          length-append rest (appended n visited),
          length-append p.visited (n.node_id ∷ []),
          length-appended n visited,
          Ran-room nodes (after n rest p run queue) (ran queue),
          ap (λ (xs : List String). length xs) e,
        )

    -- A round keeps the invariant, leaves the loop after a failed node, or meets a setting that is no
    -- number.
    pub run_round-RoundEnd :
        (k : String) (rest : List String) (p : RunState C)
        → Ran nodes p
        → Queued nodes p
        → p.queue ≡ k ∷ rest
        → RoundEnd p (run_round handlers nodes k rest p)
    unfolding run_round
    run_round-RoundEnd k rest p r q e = elim (Bool-cases (in_list k p.visited)) [
      | inl seen ↦ rw seen (
          goes_on (record p { queue = rest }) (same_Ran p rest r)
            (skipped-Queued k rest p q e (in_list→Member k p.visited seen))
            (omega (arith, ap (λ (xs : List String). length xs) e)))
      | inr fresh ↦
          let inside = (q.sources k (subst (λ xs. Member k xs) (sym e) (inl refl))).0 in
          let (n, found, m, named, same) = find_node_lem nodes k inside in
          elim (Option-cases (run_node handlers n (with_settings handlers nodes n p.context))) [
            | inl bad ↦
                rw (fresh, found, bad)
                  (crashes k n m named (no_limits n (with_settings handlers nodes n p.context) bad))
            | inr (run, ok) ↦
                rw (fresh, found, ok)
                  (decided-RoundEnd n rest p run r q (rw named e) m (rw named same)
                    (rw named fresh))
          ]
    ]
      where
        no_limits :
            (n : PipelineNode) (context : Context C)
            → run_node handlers n context ≡ none
            → limits_of handlers n ≡ none
        no_limits n context h = elim (Option-cases (limits_of handlers n)) [
          | inl e ↦ e
          | inr (l, e) ↦ absurd (cc (rw (run_node, e) at h))
        ]

        same_Ran :
            (p : RunState C) (rest : List String)
            → Ran nodes p
            → Ran nodes (record p { queue = rest })
        same_Ran p rest r = record {
          differing = r.differing;
          within = r.within;
          follows = r.follows;
          results = r.results;
          errors = r.errors;
          quiet = r.quiet;
        }
