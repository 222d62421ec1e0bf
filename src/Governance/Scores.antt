-- ===== src/Governance/Scores.antt =====
-- What the retrieval code uses of scores and of results as values. Scores are Python floats, of which
-- the code only uses the order; `==` on results is the field-wise equality of a dataclass.
use flavor_rag.Prelude.{Bool, true, false, ◌≡◌, ◌↔◌}
use flavor_rag.Search.{SearchResult}

-- `leb` is `<=` on floats that are no NaN.
pub record ScoreOrder (F : Type 0) : Type 0 where
  pub leb : F → F → Bool
  pub total : (x y : F) → leb x y ≡ false → leb y x ≡ true
  pub trans : (x y z : F) → leb x y ≡ true → leb y z ≡ true → leb x z ≡ true

pub record SameResult (F : Type 0) : Type 0 where
  pub same : SearchResult F → SearchResult F → Bool
  pub same_iff : (x y : SearchResult F) → (same x y ≡ true) ↔ (x ≡ y)
