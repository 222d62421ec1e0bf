-- ===== src/Governance/Context/Ranking.antt =====
-- What `select_context` returns: its order, its threshold, its counters and its limits.
use flavor_rag.Governance.Context.Greedy.{All-pick_all, tokens_of, chars_of, pick_all_within}
use flavor_rag.Prelude.Int.{sub_ℕ}
use flavor_rag.Governance.Context.Defs.{
  by_score_desc, decide_on, eligible, select_context, apply_quota, RetrievalDecision, pick_all,
  nothing_selected,
}
use flavor_rag.Prelude.{
  List, Member, All, length, String, ◌≡◌, filter, ◌-◌, true, ◌∷◌, All-of_Member, not, ltb, ℕ,
  Bool-cases, arith, inl, length-filter-le, some, inr, ◌≤◌, if◌then◌else◌, [], refl,
}
use flavor_rag.Prelude.Sort.{IsSorted, sort, sort-IsSorted, All-sort, length-sort, sum_by-sort}
use flavor_rag.Search.{SearchResult}
use flavor_rag.Governance.Budget.{RetrievalBudget}
use flavor_rag.Governance.Scores.{ScoreOrder, SameResult}
use flavor_rag.Governance.Tokens.{CharClasses, estimate_tokens}
use flavor_rag.Governance.Context.Quota.{apply_quota-good}

module _ {F : Type 0} (order : ScoreOrder F) where
  abbrev pub Relevant : F → List (SearchResult F) → SearchResult F → Type 0
  Relevant min_score candidates item =
      Member item candidates × (order.leb min_score item.score ≡ true)

  by_score_desc-IsSorted :
      (xs : List (SearchResult F)) → IsSorted (by_score_desc order) (sort (by_score_desc order) xs)
  by_score_desc-IsSorted =
      sort-IsSorted (by_score_desc order) (λ x y. order.total y.score x.score)
        (λ x y z h k. order.trans z.score y.score x.score k h)

  filter-Relevant :
      (min_score : F) (candidates xs : List (SearchResult F))
      → All (λ item. Member item candidates) xs
      → All (Relevant min_score candidates) (filter (λ item. order.leb min_score item.score) xs)
  filter-Relevant min_score candidates [] h = tt
  filter-Relevant min_score candidates (x ∷ xs) h =
      elim (Bool-cases (order.leb min_score x.score)) [
        | inl e ↦ rw e ((h.0, e), filter-Relevant min_score candidates xs h.1)
        | inr e ↦ rw e (filter-Relevant min_score candidates xs h.1)
      ]

  eligible-Relevant :
      (min_score : F) (candidates : List (SearchResult F))
      → All (Relevant min_score candidates) (eligible order min_score candidates)
  eligible-Relevant min_score candidates =
      All-sort (by_score_desc order) _ _
        (filter-Relevant min_score candidates candidates (All-of_Member _ candidates (λ a m. m)))

  count_below :
      (min_score : F) (xs : List (SearchResult F))
      → length xs - length (filter (λ item. order.leb min_score item.score) xs)
        ≡ length (filter (λ item. not (order.leb min_score item.score)) xs)
  count_below min_score [] = refl
  count_below min_score (x ∷ xs) = ground (
    arith,
    count_below min_score xs,
    length-filter-le (λ (item : SearchResult F). order.leb min_score item.score) xs,
  )

module _ {F : Type 0} (order : ScoreOrder F) (equal : SameResult F) where
  abbrev verdict :
      List (SearchResult F) → List (SearchResult F) → List (SearchResult F) → RetrievalDecision
  verdict candidates pool selected = record {
    answerable = ltb 0 (length selected);
    reason = if ltb 0 (length selected) then "" else "insufficient_relevance";
    dropped_below_threshold = length candidates - length pool;
    dropped_by_budget = sub_ℕ (length pool) (length selected);
  }

  decide_on_lem :
      (candidates pool selected : List (SearchResult F))
      → decide_on order equal candidates pool selected
        ≡ (selected, verdict candidates pool selected)
  decide_on_lem candidates pool [] = refl
  decide_on_lem candidates pool (x ∷ xs) = ground arith

  module _ (classes : CharClasses) (budget : RetrievalBudget) (iterate : List String → List String)
      (candidates : List (SearchResult F)) (min_score : F) where
    -- With any quota and any order of the knowledge bases the function returns. Every item that it
    -- selects is a candidate at or above the threshold, and the items stand in descending order of
    -- their scores. It reports an answer exactly if it selected something; it counts the candidates
    -- below the threshold, and as dropped by the budget what else was not selected.
    pub select_context_lem :
        (quota : ℕ)
        → (out : List (SearchResult F)) × (decision : RetrievalDecision) × (select_context order
              equal classes budget iterate candidates min_score quota
            ≡ some (out, decision))
          × All (Relevant order min_score candidates) out
          × IsSorted (by_score_desc order) out
          × (decision.answerable ≡ ltb 0 (length out))
          × (decision.dropped_below_threshold
              ≡ length (filter (λ item. not (order.leb min_score item.score)) candidates))
          × (decision.dropped_by_budget
              ≡ sub_ℕ (length candidates - decision.dropped_below_threshold) (length out))
    unfolding select_context
    select_context_lem quota =
        let pool = eligible order min_score candidates in
        let greedy = (pick_all classes budget nothing_selected pool).selected in
        let good = eligible-Relevant order min_score candidates in
        let (chosen, found, chosen_good) =
          apply_quota-good order equal (Relevant order min_score candidates) quota pool good iterate
            greedy
            (All-pick_all classes budget (Relevant order min_score candidates) nothing_selected pool
              tt good) in
        let ranked = sort (by_score_desc order) chosen in
        let kept = filter (λ (item : SearchResult F). order.leb min_score item.score) candidates in
        let kept_all : length pool ≡ length kept = length-sort (by_score_desc order) kept in
        let below : length candidates - length pool
            ≡ length (
                filter (λ (item : SearchResult F). not (order.leb min_score item.score))
                  candidates) =
          rw kept_all (count_below order min_score candidates) in
        let fewer : length candidates - (length candidates - length pool) ≡ length pool = omega (
          arith,
          kept_all,
          length-filter-le (λ (item : SearchResult F). order.leb min_score item.score) candidates,
        ) in
        (
          ranked,
          verdict candidates pool ranked,
          rw (found, decide_on_lem candidates pool ranked),
          All-sort (by_score_desc order) _ chosen chosen_good,
          by_score_desc-IsSorted order chosen,
          refl,
          below,
          rw fewer,
        )

    -- Without a quota the selected items number at most `final_top_k`, and keep within the limit on
    -- estimated tokens if the budget has one, else within the limit on characters.
    pub select_context_within :
        (out : List (SearchResult F)) (decision : RetrievalDecision)
        → select_context order equal classes budget iterate candidates min_score 0
          ≡ some (out, decision)
        → (length out ≤ budget.final_top_k)
          × (if ltb 0 budget.context_max_tokens
              then tokens_of classes budget out ≤ budget.context_max_tokens
              else chars_of classes budget out ≤ budget.context_max_chars)
    unfolding select_context apply_quota
    select_context_within out decision h =
        let greedy =
          (pick_all classes budget nothing_selected
            (eligible order min_score candidates)).selected in
        let (few, room) = pick_all_within classes budget (eligible order min_score candidates) in
        let ranked : out ≡ sort (by_score_desc order) greedy = cc (
          decide_on_lem candidates (eligible order min_score candidates)
            (sort (by_score_desc order) greedy)) in
        rw
          (
            ranked,
            length-sort (by_score_desc order) greedy,
            sum_by-sort (λ (item : SearchResult F). length item.content) (by_score_desc order)
                greedy,
            sum_by-sort (λ (item : SearchResult F). estimate_tokens classes item.content)
                (by_score_desc order) greedy,
          )
          (few, room)
