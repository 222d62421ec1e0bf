-- ===== src/Governance/Channels/Results.antt =====
-- What a channel contributes, and when the retrieval as a whole counts as unavailable.
use flavor_rag.Prelude.{
  ℕ, suc, ◌*◌, ◌≤◌, ◌≡◌, refl, ap, Bool, true, false, not, List, [], ◌∷◌, map, String,
  if◌then◌else◌, length, take, arith, any, all, length-take, ◌==◌, take_nil,
}
use flavor_rag.Search.{SearchResult}
use flavor_rag.Governance.Budget.{RetrievalBudget}
use flavor_rag.Governance.Channels.Defs.{
  Finish, items, timed_out, errored, pending, tag_all, run_one, run_search_channels,
  rejection_reason_for_channels, is_unavailable, ChannelStatus,
}

module _ {F : Type 0} where
  -- The part of a result that tagging leaves alone.
  abbrev pub found_as : SearchResult F → String × List ℕ × F
  found_as item = (item.chunk_id, item.content, item.score)

  tag_all-found_as :
      (name : String) (rank : ℕ) (xs : List (SearchResult F))
      → map found_as (tag_all name rank xs) ≡ map found_as xs
  unfolding tag_all
  tag_all-found_as name rank [] = refl
  tag_all-found_as name rank (x ∷ xs) = ap (◌∷◌ (found_as x)) (tag_all-found_as name (suc rank) xs)

  length-tag_all :
      (name : String) (rank : ℕ) (xs : List (SearchResult F))
      → length (tag_all name rank xs) ≡ length xs
  unfolding tag_all
  length-tag_all name rank [] = refl
  length-tag_all name rank (x ∷ xs) = ap suc (length-tag_all name (suc rank) xs)

  -- The items of a channel that returned: `none` for one that did not.
  abbrev pub returned_items : Finish F → List (SearchResult F)
  returned_items (items found ms) = found
  returned_items _ = []

  abbrev pub did_return : Finish F → Bool
  did_return (items found ms) = true
  did_return _ = false

  -- A channel contributes what it returned, cut to its limit, in order and with ids, texts and scores
  -- unchanged, and its status counts that; a channel that did not return contributes nothing. The
  -- status is "success" exactly for a channel that returned.
  pub run_one_lem :
      (budget : RetrievalBudget) (name : String) (f : Finish F)
      → let (kept, status) = run_one budget name f in
        (map found_as kept
          ≡ map found_as
              (take (budget.per_channel_top_k * budget.max_subqueries) (returned_items f)))
        × (status.count ≡ length kept)
        × (status.count ≤ budget.per_channel_top_k * budget.max_subqueries)
        × ((status.status == "success") ≡ did_return f)
        × (is_unavailable (name, status) ≡ not (did_return f))
  unfolding run_one
  run_one_lem budget name (items found ms) =
      let n = budget.per_channel_top_k * budget.max_subqueries in
      (
        tag_all-found_as name 1 (take n found),
        refl,
        omega (arith, length-tag_all name 1 (take n found), length-take n found),
        refl,
        refl,
      )
  run_one_lem budget name (timed_out ms) = (rw (take_nil _), refl, omega arith, refl, refl)
  run_one_lem budget name (errored kind ms) = (rw (take_nil _), refl, omega arith, refl, refl)
  run_one_lem budget name pending = (rw (take_nil _), refl, omega arith, refl, refl)

  abbrev statuses : RetrievalBudget → List (String × Finish F) → List (String × ChannelStatus)
  statuses budget channels = map (λ c. (c.0, (run_one budget c.0 c.1).1)) channels

  all_unavailable :
      (budget : RetrievalBudget) (channels : List (String × Finish F))
      → all is_unavailable (statuses budget channels) ≡ not (any (λ c. did_return c.1) channels)
  all_unavailable budget [] = refl
  all_unavailable budget (c ∷ channels) =
      ground (arith, (run_one_lem budget c.0 c.1).4, all_unavailable budget channels)

  -- The retrieval is reported as unavailable exactly if there was a channel and none returned, by
  -- a timeout of its own, an error or the end of the whole wait; otherwise the caller's reason stands.
  pub rejection_reason_lem :
      (budget : RetrievalBudget) (channels : List (String × Finish F)) (reason : String)
      → rejection_reason_for_channels (run_search_channels budget channels).1 reason ≡ (
          if any (λ c. did_return c.1) channels
          then reason
          else elim channels [ [] ↦ reason | c ∷ cs ↦ "retrieval_unavailable" ])
  unfolding rejection_reason_for_channels run_search_channels
  rejection_reason_lem budget [] reason = refl
  rejection_reason_lem budget (c ∷ channels) reason =
      ground (arith, all_unavailable budget (c ∷ channels))
