-- ===== src/Governance/Context/Defs.antt =====
-- The greedy choice within the budget, and the exchange that gives every knowledge base its quota.
use flavor_rag.Prelude.{
  ℕ, ◌+◌, ◌-◌, Bool, true, false, ◌&&◌, not, List, [], ◌∷◌, ◌++◌, Option, none, some, String, leb,
  ltb, if◌then◌else◌, ◌==◌, truthy, in_list, length, filter, take, map,
}
use flavor_rag.Prelude.Dict
use flavor_rag.Prelude.Dict.{Dict}
use flavor_rag.Prelude.Int.{ℤ, sub_ℕ}
use flavor_rag.Prelude.Optional.{◌>>=◌}
use flavor_rag.Prelude.Sort.{sort}
use flavor_rag.Search.{SearchResult}
use flavor_rag.Governance.Budget.{RetrievalBudget}
use flavor_rag.Governance.Scores.{ScoreOrder, SameResult}
use flavor_rag.Governance.Tokens.{CharClasses, estimate_tokens}

pub record RetrievalDecision : Type 0 where
  pub answerable : Bool
  pub reason : String
  pub dropped_below_threshold : ℕ
  pub dropped_by_budget : ℤ

-- The variables of the greedy loop.
pub record Selection (A : Type 0) : Type 0 where
  pub selected : List A
  pub used_chars : ℕ
  pub used_tokens : ℕ

-- The variables of the exchange: `selected`, `evictable`, `kb_counts` and `selected_ids`.
pub record Exchange (A : Type 0) : Type 0 where
  pub selected : List A
  pub evictable : List A
  pub counts : Dict ℕ
  pub ids : List String

-- `d.get(k, default)`
abbrev pub count_or : Dict ℕ → String → ℕ → ℕ
count_or d k default = elim (Dict.get d k) [ none ↦ default | some n ↦ n ]

abbrev pub nothing_selected : {A : Type 0} → Selection A
nothing_selected = record { selected = []; used_chars = 0; used_tokens = 0 }

module _ {F : Type 0} where
  abbrev pub kb_of : SearchResult F → String
  kb_of item = item.metadata.kb_id

  -- `_kb_distribution`
  unfoldable pub kb_distribution_from : Dict ℕ → List (SearchResult F) → Dict ℕ
  kb_distribution_from dist [] = dist
  kb_distribution_from dist (item ∷ items) =
      kb_distribution_from
        (if truthy (kb_of item)
          then Dict.set dist (kb_of item) (count_or dist (kb_of item) 0 + 1)
          else dist)
        items

  abbrev pub kb_distribution : List (SearchResult F) → Dict ℕ
  kb_distribution = kb_distribution_from []

  -- The set of the knowledge bases of the items, each once.
  unfoldable pub kbs_of : List (SearchResult F) → List String
  kbs_of [] = []
  kbs_of (item ∷ items) =
      let rest = kbs_of items in
      if truthy (kb_of item) && not (in_list (kb_of item) rest) then kb_of item ∷ rest else rest

module _ {F : Type 0} (order : ScoreOrder F) where
  -- `sorted(.., key=score, reverse=True)`, and `sorted(.., key=score)`. Both are stable.
  abbrev pub by_score_desc : SearchResult F → SearchResult F → Bool
  by_score_desc x y = order.leb y.score x.score

  abbrev pub by_score : SearchResult F → SearchResult F → Bool
  by_score x y = order.leb x.score y.score

  abbrev pub eligible : F → List (SearchResult F) → List (SearchResult F)
  eligible min_score candidates =
      sort by_score_desc (filter (λ item. order.leb min_score item.score) candidates)

module _ {F : Type 0} (classes : CharClasses) (budget : RetrievalBudget) where
  -- The test of the greedy loop: the token limit if there is one, else the limit on characters.
  abbrev pub fits : Selection (SearchResult F) → SearchResult F → Bool
  fits s item =
      if ltb 0 budget.context_max_tokens
      then leb (s.used_tokens + estimate_tokens classes item.content) budget.context_max_tokens
      else leb (s.used_chars + length item.content) budget.context_max_chars

  unfoldable pub pick : Selection (SearchResult F) → SearchResult F → Selection (SearchResult F)
  pick s item =
      if fits s item
      then record {
        selected = s.selected ++ item ∷ [];
        used_chars = s.used_chars + length item.content;
        used_tokens = s.used_tokens + estimate_tokens classes item.content;
      }
      else s

  unfoldable pub pick_all :
      Selection (SearchResult F) → List (SearchResult F) → Selection (SearchResult F)
  unfolding pick
  pick_all s [] = s
  pick_all s (item ∷ items) =
      let rest = pick_all (pick s item) items in
      if leb budget.final_top_k (length s.selected) then s else rest

module _ {F : Type 0} (equal : SameResult F) where
  -- `selected[selected.index(victim)] = fill_item`; `none` stands for the ValueError of `index`.
  unfoldable pub replace :
      SearchResult F → SearchResult F → List (SearchResult F) → Option (List (SearchResult F))
  replace victim fill [] = none
  replace victim fill (item ∷ items) =
      if equal.same item victim
      then some (fill ∷ items)
      else (do out ← replace victim fill items; some (item ∷ out))

  -- The books after `fill` has come for `victim`.
  abbrev pub after_swap :
      String
      → SearchResult F
      → SearchResult F
      → Exchange (SearchResult F)
      → List (SearchResult F)
      → List (SearchResult F)
      → Exchange (SearchResult F)
  after_swap kb victim fill x evictable out =
      let counts =
        if truthy (kb_of victim)
        then Dict.set x.counts (kb_of victim) (count_or x.counts (kb_of victim) 1 - 1)
        else x.counts in
      record {
        selected = out;
        evictable = evictable;
        counts = Dict.set counts kb (count_or counts kb 0 + 1);
        ids = fill.chunk_id ∷ filter (λ i. not (i == victim.chunk_id)) x.ids;
      }

  -- The body of the loop over `backfill`, with the list `evictable`.
  unfoldable pub swap_with :
      String
      → Exchange (SearchResult F)
      → SearchResult F
      → List (SearchResult F)
      → Option (Exchange (SearchResult F))
  unfolding replace
  swap_with kb x fill (victim ∷ others) = do
    out ← replace victim fill x.selected
    some (after_swap kb victim fill x others out)
  swap_with kb x fill [] = some (record {
    selected = x.selected ++ fill ∷ [];
    evictable = [];
    counts = Dict.set x.counts kb (count_or x.counts kb 0 + 1);
    ids = fill.chunk_id ∷ x.ids;
  })

  unfoldable pub swap_all :
      String
      → Exchange (SearchResult F)
      → List (SearchResult F)
      → Option (Exchange (SearchResult F))
  unfolding swap_with
  swap_all kb x [] = some x
  swap_all kb x (fill ∷ backfill) = do x' ← swap_with kb x fill x.evictable; swap_all kb x' backfill

module _ {F : Type 0} (order : ScoreOrder F) (equal : SameResult F) where
  abbrev pub backfill_of :
      ℕ → String → Exchange (SearchResult F) → List (SearchResult F) → List (SearchResult F)
  backfill_of quota kb x pool =
      take (quota - count_or x.counts kb 0)
        (filter (λ item. kb_of item == kb && not (in_list item.chunk_id x.ids)) pool)

  abbrev pub evictable_of : ℕ → Exchange (SearchResult F) → List (SearchResult F)
  evictable_of quota x =
      sort (by_score order)
        (filter (λ item. ltb quota (count_or x.counts (kb_of item) 0)) x.selected)

  -- The body of the loop over `all_kbs`.
  unfoldable pub serve_kb :
      ℕ
      → List (SearchResult F)
      → Exchange (SearchResult F)
      → String
      → Option (Exchange (SearchResult F))
  unfolding swap_all
  serve_kb quota pool x kb =
      if leb quota (count_or x.counts kb 0)
      then some x
      else swap_all equal kb (record x { evictable = evictable_of quota x })
          (backfill_of quota kb x pool)

  unfoldable pub serve_kbs :
      ℕ
      → List (SearchResult F)
      → Exchange (SearchResult F)
      → List String
      → Option (Exchange (SearchResult F))
  unfolding serve_kb
  serve_kbs quota pool x [] = some x
  serve_kbs quota pool x (kb ∷ kbs) = do x' ← serve_kb quota pool x kb; serve_kbs quota pool x' kbs

  abbrev pub start_exchange : List (SearchResult F) → Exchange (SearchResult F)
  start_exchange selected = record {
    selected = selected;
    evictable = [];
    counts = kb_distribution selected;
    ids = map (λ item. item.chunk_id) selected;
  }

  -- `iterate` is the order in which Python iterates over the set of knowledge bases.
  unfoldable pub apply_quota :
      (List String → List String)
      → ℕ
      → List (SearchResult F)
      → List (SearchResult F)
      → Option (List (SearchResult F))
  unfolding serve_kbs kbs_of kb_distribution_from
  apply_quota iterate quota pool selected =
      if ltb 0 quota && ltb 1 (length (kbs_of pool))
      then (do
        x ← serve_kbs quota pool (start_exchange selected) (iterate (kbs_of pool))
        some x.selected)
      else some selected

  abbrev pub decide_on :
      List (SearchResult F)
      → List (SearchResult F)
      → List (SearchResult F)
      → List (SearchResult F) × RetrievalDecision
  decide_on candidates pool selected =
      let below = length candidates - length pool in
      let dropped = sub_ℕ (length pool) (length selected) in
      elim selected [
        | [] ↦ (
          [],
          record {
            answerable = false;
            reason = "insufficient_relevance";
            dropped_below_threshold = below;
            dropped_by_budget = dropped;
          },
        )
        | item ∷ items ↦ (
          item ∷ items,
          record {
            answerable = true;
            reason = "";
            dropped_below_threshold = below;
            dropped_by_budget = dropped;
          },
        )
      ]

  -- `select_context`; a quota of 0 stands for None too.
  unfoldable pub select_context :
      CharClasses
      → RetrievalBudget
      → (List String → List String)
      → List (SearchResult F)
      → F
      → ℕ
      → Option (List (SearchResult F) × RetrievalDecision)
  unfolding pick_all apply_quota
  select_context classes budget iterate candidates min_score quota =
      let pool = eligible order min_score candidates in
      let greedy = (pick_all classes budget nothing_selected pool).selected in
      do
        chosen ← apply_quota iterate quota pool greedy
        some (decide_on candidates pool (sort (by_score_desc order) chosen))
