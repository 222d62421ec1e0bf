-- ===== src/Governance/Budget.antt =====
-- `RetrievalBudget` of governance.py, with the check of its constructor.
use flavor_rag.Prelude.{ℕ, Option, none, some, min, leb, if◌then◌else◌}

pub record RetrievalBudget : Type 0 where
  pub per_channel_top_k : ℕ
  pub max_candidates : ℕ
  pub final_top_k : ℕ
  pub channel_timeout_ms : ℕ
  pub total_timeout_ms : ℕ
  pub context_max_chars : ℕ
  pub context_max_tokens : ℕ
  pub max_subqueries : ℕ

-- `__post_init__`: `none` stands for the ValueError. Negative limits act as 0.
unfoldable pub checked : RetrievalBudget → Option RetrievalBudget
checked b =
    if leb
      (min b.per_channel_top_k
        (min b.max_candidates (min b.final_top_k (min b.context_max_chars b.max_subqueries))))
      0
    then none
    else some b
