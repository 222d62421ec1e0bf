-- ===== src/Governance/Context/Greedy.antt =====
-- The greedy choice: the limits that it keeps, and what its items have in common with the pool.
use flavor_rag.Prelude.{
  ℕ, ◌≤◌, ◌<◌, ◌≡◌, List, [], ◌∷◌, ltb, leb, if◌then◌else◌, length, arith, Bool-cases,
  length-append, inl, inr, All, All-append,
}
use flavor_rag.Prelude.Sort.{sum_by, sum_by-append}
use flavor_rag.Search.{SearchResult}
use flavor_rag.Governance.Budget.{RetrievalBudget}
use flavor_rag.Governance.Tokens.{CharClasses, estimate_tokens}
use flavor_rag.Governance.Context.Defs.{Selection, pick, pick_all, nothing_selected, fits}

module _ {F : Type 0} (classes : CharClasses) (budget : RetrievalBudget) where
  -- The code points, and the estimated tokens, of all the items.
  abbrev pub chars_of : List (SearchResult F) → ℕ
  chars_of = sum_by (λ item. length item.content)

  abbrev pub tokens_of : List (SearchResult F) → ℕ
  tokens_of = sum_by (λ item. estimate_tokens classes item.content)

  -- The books are right, and every limit holds: on the items, and on their tokens if the budget
  -- limits these, else on their characters.
  pub record Within (s : Selection (SearchResult F)) : Type 0 where
    pub chars : s.used_chars ≡ chars_of s.selected
    pub tokens : s.used_tokens ≡ tokens_of s.selected
    pub items : length s.selected ≤ budget.final_top_k
    pub room :
        if ltb 0 budget.context_max_tokens
        then s.used_tokens ≤ budget.context_max_tokens
        else s.used_chars ≤ budget.context_max_chars

  pick-Within :
      (s : Selection (SearchResult F)) (x : SearchResult F)
      → Within s
      → length s.selected < budget.final_top_k
      → Within (pick classes budget s x)
  unfolding pick
  pick-Within s x w h = ground (
    arith,
    sum_by-append (λ (item : SearchResult F). length item.content) s.selected (x ∷ []),
    sum_by-append (λ (item : SearchResult F). estimate_tokens classes item.content) s.selected
        (x ∷ []),
    length-append s.selected (x ∷ []),
  )

  All-pick :
      (P : SearchResult F → Type 0) (s : Selection (SearchResult F)) (x : SearchResult F)
      → All P s.selected
      → P x
      → All P (pick classes budget s x).selected
  unfolding pick
  All-pick P s x h p = elim (Bool-cases (fits classes budget s x)) [
    | inl e ↦ rw e (All-append P s.selected (x ∷ []) h (p, tt))
    | inr e ↦ rw e h
  ]

  pick_all-Within :
      (s : Selection (SearchResult F)) (xs : List (SearchResult F))
      → Within s
      → Within (pick_all classes budget s xs)
  unfolding pick_all
  pick_all-Within s [] w = w
  pick_all-Within s (x ∷ xs) w = elim (Bool-cases (leb budget.final_top_k (length s.selected))) [
    | inl full ↦ rw full w
    | inr more ↦
        rw more (pick_all-Within (pick classes budget s x) xs (pick-Within s x w (ground arith)))
  ]

  -- The greedy choice from any pool: at most `final_top_k` items, and within the limit on tokens if
  -- there is one, else within the limit on characters.
  pub pick_all_within :
      (pool : List (SearchResult F))
      → let chosen = (pick_all classes budget nothing_selected pool).selected in
        (length chosen ≤ budget.final_top_k)
        × (if ltb 0 budget.context_max_tokens
            then tokens_of chosen ≤ budget.context_max_tokens
            else chars_of chosen ≤ budget.context_max_chars)
  pick_all_within pool =
      let w = pick_all-Within nothing_selected pool (ground arith) in
      (w.items, ground (arith, w.chars, w.tokens, w.room))

  pub All-pick_all :
      (P : SearchResult F → Type 0) (s : Selection (SearchResult F)) (xs : List (SearchResult F))
      → All P s.selected
      → All P xs
      → All P (pick_all classes budget s xs).selected
  unfolding pick_all
  All-pick_all P s [] h k = h
  All-pick_all P s (x ∷ xs) h k = elim (Bool-cases (leb budget.final_top_k (length s.selected))) [
    | inl full ↦ rw full h
    | inr more ↦ rw more (All-pick_all P (pick classes budget s x) xs (All-pick P s x h k.0) k.1)
  ]
