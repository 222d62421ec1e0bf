-- ===== src/Governance/Tests.antt =====
-- Runs of the governance model at small inputs, and its theorems applied there.
use flavor_rag.Prelude.Int.{sub_ℕ}
use flavor_rag.Governance.Channels.Shares.{share_lem}
use flavor_rag.Governance.Context.Greedy.{chars_of, pick_all_within}
use flavor_rag.Governance.Channels.Lanes.{Staggered, granted, supply, source}
use flavor_rag.Prelude.Sort.{sort, IsSorted}
use flavor_rag.Governance.Context.Ranking.{select_context_within, Relevant, select_context_lem}
use flavor_rag.Governance.Context.Defs.{
  select_context, pick_all, RetrievalDecision, nothing_selected, kb_distribution_from,
  by_score_desc,
}
use mathlib.Core.Bool.{decide, decide_iff}
use native.Mathlib.Decide.{ℕ_discrete}
use flavor_rag.Prelude.{
  ℕ, ◌≡◌, refl, true, false, List, [], ◌∷◌, ◌++◌, none, some, String, ltb, leb, length, arith, min,
  map, ◌&&◌, ◌||◌, eqb, ◌≤◌, All, filter, not, ◌-◌, String-discrete,
}
use mathlib.Core.Option
use flavor_rag.Governance.Breaker.Defs.{
  Breaker, Event, Outcome, new_breaker, call, state, handle, gauge_value,
}
use flavor_rag.Governance.Channels.Defs.{
  Finish, Lane, rejection_reason_for_channels, run_search_channels, share,
}
use flavor_rag.Governance.Breaker.{IsValid, fail_at, expected, state-fail_at}
use flavor_rag.Prelude.Dict
use flavor_rag.Search.{SearchResult}
use flavor_rag.Governance.Budget.{RetrievalBudget}
use flavor_rag.Governance.Scores.{ScoreOrder, SameResult}
use flavor_rag.Governance.Tokens.{CharClasses, estimate_tokens}

-- ASCII classes.
abbrev ascii : CharClasses
ascii = record {
  is_word = λ c. leb b'0' c && leb c b'9' || leb b'a' c && leb c b'z';
  is_space = λ c. eqb c 32;
  word_blank = refl;
  space_blank = refl;
}

leb_total : (x y : ℕ) → leb x y ≡ false → leb y x ≡ true
leb_total x y h = ground arith

leb_trans : (x y z : ℕ) → leb x y ≡ true → leb y z ≡ true → leb x z ≡ true
leb_trans x y z h k = ground arith

abbrev number_order : ScoreOrder ℕ
number_order = record { leb = leb; total = leb_total; trans = leb_trans }

SearchResult-discrete : Discrete (SearchResult ℕ)
SearchResult-discrete = hlevel (ℕ_discrete, String-discrete)

number_same : SameResult ℕ
number_same = record {
  same = λ x y. decide (SearchResult-discrete x y);
  same_iff = λ x y. decide_iff (SearchResult-discrete x y);
}

program : Unit {0}
unfolding estimate_tokens select_context run_search_channels rejection_reason_for_channels call
    new_breaker handle state sort kb_distribution_from SearchResult-discrete String-discrete
    ℕ_discrete number_same decide Dict.get Dict.set
program = tt

abbrev budget : RetrievalBudget
budget = record {
  per_channel_top_k = 2;
  max_candidates = 3;
  final_top_k = 2;
  channel_timeout_ms = 100;
  total_timeout_ms = 200;
  context_max_chars = 10;
  context_max_tokens = 0;
  max_subqueries = 1;
}

abbrev chunk : String → String → List ℕ → ℕ → SearchResult ℕ
chunk id kb text score = record {
  chunk_id = id;
  content = text;
  score = score;
  doc_id = "";
  doc_name = "";
  chunk_index = 0;
  block_type = "";
  page_start = none;
  page_end = none;
  metadata = record {
    kb_id = kb;
    retrieval_channel = none;
    channel_rank = none;
    raw_score = none;
    channel_scores = none;
    matched_channels = [];
    fusion_score = none;
  };
  file_type = "";
  content_hash = "";
}

abbrev word : List ℕ
word = b'a' ∷ b'b' ∷ b'c' ∷ b'd' ∷ b'e' ∷ []

abbrev a1 : SearchResult ℕ
a1 = chunk "a1" "A" word 9

abbrev a2 : SearchResult ℕ
a2 = chunk "a2" "A" word 8

abbrev b1 : SearchResult ℕ
b1 = chunk "b1" "B" (word ++ word) 7

abbrev c1 : SearchResult ℕ
c1 = chunk "c1" "C" word 6

abbrev pool : List (SearchResult ℕ)
pool = b1 ∷ a2 ∷ a1 ∷ c1 ∷ []

estimate_mixed : estimate_tokens ascii (0x4e00 ∷ word ++ 32 ∷ b'!' ∷ []) ≡ 4
unfolding program
estimate_mixed = refl

-- Without a quota the two best fit. A quota of 1 gives the base B its place by the loss of A's second
-- item, with which the texts exceed the 10 characters, and then appends C's item as a third.
select_plain :
    Option.map
      (λ r. map (λ (x : SearchResult ℕ). x.chunk_id) r.0)
      (select_context number_order number_same ascii budget (λ kbs. kbs) pool 5 0)
    ≡ some ("a1" ∷ "a2" ∷ [])
unfolding program
select_plain = refl

select_quota :
    Option.map
      (λ r. map (λ (x : SearchResult ℕ). x.chunk_id) r.0)
      (select_context number_order number_same ascii budget (λ kbs. kbs) pool 5 1)
    ≡ some ("a1" ∷ "b1" ∷ "c1" ∷ [])
unfolding program
select_quota = refl

abbrev breaker : Breaker
breaker = record {
  failure_threshold = 2;
  recovery_timeout = 30;
  failures = 2;
  opened_at = some 5;
  name = "vector";
  gauge = 1;
}

breaker-IsValid : IsValid breaker
unfolding gauge_value
breaker-IsValid = ground arith

abbrev answered : Outcome ℕ ℕ
answered = Outcome.returned 7

state-fail_at_example :
    state (fail_at (handle breaker Event.success) (10 ∷ 12 ∷ [])) 20
    ≡ expected 2 30 (10 ∷ 12 ∷ []) 20
state-fail_at_example = state-fail_at breaker (10 ∷ 12 ∷ []) 20

abbrev found : List (String × List ℕ)
found = ("vector", 1 ∷ 2 ∷ 3 ∷ []) ∷ ("keyword", 4 ∷ 5 ∷ []) ∷ []

share_lem_example :
    (out : List (Lane ℕ)) × (rounds : ℕ) × (share 3 found ≡ some out)
    × Staggered rounds out
    × (granted out ≡ min 3 (supply found))
    × (map source out ≡ found)
share_lem_example = share_lem 3 found

abbrev finishes : List (String × Finish ℕ)
finishes = ("vector", Finish.timed_out 100) ∷ ("keyword", Finish.pending) ∷ []

pick_all_within_example :
    let chosen = (pick_all ascii budget nothing_selected pool).selected in
    (length chosen ≤ 2) × (chars_of ascii budget chosen ≤ 10)
pick_all_within_example = pick_all_within ascii budget pool

select_context_lem_example :
    (out : List (SearchResult ℕ)) × (decision : RetrievalDecision) × (select_context number_order
        number_same ascii budget
        (λ kbs. kbs)
        pool
        5
        1
      ≡ some (out, decision))
    × All (Relevant number_order 5 pool) out
    × IsSorted (by_score_desc number_order) out
    × (decision.answerable ≡ ltb 0 (length out))
    × (decision.dropped_below_threshold
        ≡ length (filter (λ (item : SearchResult ℕ). not (leb 5 item.score)) pool))
    × (decision.dropped_by_budget ≡ sub_ℕ (4 - decision.dropped_below_threshold) (length out))
select_context_lem_example =
    select_context_lem number_order number_same ascii budget (λ kbs. kbs) pool 5 1

select_context_within_example : (2 ≤ 2) × (10 ≤ 10)
unfolding program
select_context_within_example =
    select_context_within number_order number_same ascii budget (λ kbs. kbs) pool 5 (a1 ∷ a2 ∷ []) _
      refl
