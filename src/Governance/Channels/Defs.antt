-- ===== src/Governance/Channels/Defs.antt =====
-- The channels' results, bounded and merged. What the event loop makes of a channel's task is an
-- argument: `Finish` says how the task stands when the wait for all channels is over.
use flavor_rag.Prelude.{
  ℕ, zero, suc, ◌-◌, ◌*◌, Bool, false, ◌&&◌, ◌||◌, List, [], ◌∷◌, ◌++◌, map, Option, none, some,
  String, ltb, if◌then◌else◌, ◌==◌, get_elem?, length, take, all,
}
use flavor_rag.Search.{SearchResult}
use flavor_rag.Governance.Budget.{RetrievalBudget}

pub record ChannelStatus : Type 0 where
  pub status : String
  pub duration_ms : ℕ
  pub count : ℕ
  pub error : String

-- The operation returned its items in time, or ran into the channel's timeout, or raised an
-- exception of the named type; or the task was pending when the total timeout ended the wait.
pub data Finish (F : Type 0) : Type 0 where
  items : List (SearchResult F) → (duration_ms : ℕ) → Finish F
  timed_out : (duration_ms : ℕ) → Finish F
  errored : String → (duration_ms : ℕ) → Finish F
  pending : Finish F

-- `d.setdefault(k, v)`
unfoldable pub set_default {ℓ} : {A : Type ℓ} → Option A → A → Option A
set_default none v = some v
set_default (some w) v = some w

module _ {F : Type 0} where
  unfoldable pub tag : String → ℕ → SearchResult F → SearchResult F
  unfolding set_default
  tag name rank item = record item {
    metadata = record item.metadata {
      retrieval_channel = set_default item.metadata.retrieval_channel name;
      channel_rank = set_default item.metadata.channel_rank rank;
      raw_score = set_default item.metadata.raw_score item.score;
    };
  }

  -- `enumerate(items, start=rank)`
  unfoldable pub tag_all : String → ℕ → List (SearchResult F) → List (SearchResult F)
  unfolding tag
  tag_all name rank [] = []
  tag_all name rank (x ∷ xs) = tag name rank x ∷ tag_all name (suc rank) xs

  -- `run_one`, and the entry that a pending task gets.
  unfoldable pub run_one :
      RetrievalBudget → String → Finish F → List (SearchResult F) × ChannelStatus
  unfolding tag_all
  run_one budget name (items found ms) =
      let kept = tag_all name 1 (take (budget.per_channel_top_k * budget.max_subqueries) found) in
      (kept, record { status = "success"; duration_ms = ms; count = length kept; error = "" })
  run_one budget name (timed_out ms) =
      ([], record { status = "timeout"; duration_ms = ms; count = 0; error = "channel_timeout" })
  run_one budget name (errored kind ms) =
      ([], record { status = "error"; duration_ms = ms; count = 0; error = kind })
  run_one budget name pending = (
    [],
    record {
      status = "timeout";
      duration_ms = budget.total_timeout_ms;
      count = 0;
      error = "total_timeout";
    },
  )

-- A channel's results, and the share of them that it has been given.
pub record Lane (A : Type 0) : Type 0 where
  pub name : String
  pub results : List A
  pub bounded : List A

module _ {A : Type 0} where
  -- One channel's turn: `bounded[name].append(results[name][rank])`, if there is such a result.
  unfoldable pub grant : ℕ → Lane A → Lane A
  grant rank lane = elim (get_elem? lane.results rank) [
    | none ↦ lane
    | some item ↦ record lane { bounded = lane.bounded ++ item ∷ [] }
  ]

  abbrev pub can_grant : ℕ → ℕ → Lane A → Bool
  can_grant rank remaining lane = ltb rank (length lane.results) && ltb 0 remaining

  -- The `for` loop: the lanes, what remains of the budget, and `added`.
  unfoldable pub sweep : ℕ → ℕ → List (Lane A) → List (Lane A) × ℕ × Bool
  unfolding grant
  sweep rank remaining [] = ([], remaining, false)
  sweep rank remaining (lane ∷ lanes) =
      let given = can_grant rank remaining lane in
      let (rest, left, added) = sweep rank (if given then remaining - 1 else remaining) lanes in
      ((if given then grant rank lane else lane) ∷ rest, left, given || added)

  -- The `while` loop, on fuel; `none` means that the fuel ran out.
  unfoldable pub share_loop : ℕ → ℕ → ℕ → List (Lane A) → Option (List (Lane A))
  unfolding sweep
  share_loop zero rank remaining lanes = none
  share_loop (suc fuel) rank remaining lanes =
      let (next, left, added) = sweep rank remaining lanes in
      let rest = share_loop fuel (suc rank) left next in
      if ltb 0 remaining then (if added then rest else some next) else some lanes

  unfoldable pub start_lane : String × List A → Lane A
  start_lane (name, found) = record { name = name; results = found; bounded = [] }

  -- Each round but the last grants a result, so that one round more than the budget suffices.
  unfoldable pub share : ℕ → List (String × List A) → Option (List (Lane A))
  unfolding share_loop start_lane
  share max_candidates results =
      share_loop (suc max_candidates) 0 max_candidates (map start_lane results)

-- `run_search_channels`: the channels with their shares, and their statuses.
unfoldable pub run_search_channels :
    {F : Type 0}
    → RetrievalBudget
    → List (String × Finish F)
    → Option (List (Lane (SearchResult F))) × List (String × ChannelStatus)
unfolding run_one share
run_search_channels budget channels = (
  share budget.max_candidates (map (λ c. (c.0, (run_one budget c.0 c.1).0)) channels),
  map (λ c. (c.0, (run_one budget c.0 c.1).1)) channels,
)

-- `rejection_reason_for_channels`
abbrev pub is_unavailable : String × ChannelStatus → Bool
is_unavailable s = s.1.status == "timeout" || s.1.status == "error"

unfoldable pub rejection_reason_for_channels : List (String × ChannelStatus) → String → String
rejection_reason_for_channels [] fallback_reason = fallback_reason
rejection_reason_for_channels (s ∷ statuses) fallback_reason =
    if all is_unavailable (s ∷ statuses) then "retrieval_unavailable" else fallback_reason
