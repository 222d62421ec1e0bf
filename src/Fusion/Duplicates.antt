-- ===== src/Fusion/Duplicates.antt =====
-- `deduplicate`: results whose texts have nearly the same 3-grams. Sets are lists without repetitions.
use flavor_rag.Prelude.{
  is_nil, ℕ, List, Bool, none, some, if◌then◌else◌, ◌&&◌, same_text, ◌+◌, ◌-◌, [], ◌∷◌, ◌++◌,
  length, map, filter, any,
}
use flavor_rag.Prelude.Dict.{Dict, set}
use flavor_rag.Search.{SearchResult, ChannelScore}

abbrev pub Gram : Type 0
Gram = List ℕ

abbrev pub has_gram : Gram → List Gram → Bool
has_gram g grams = any (same_text g) grams

abbrev pub insert_gram : Gram → List Gram → List Gram
insert_gram g grams = if has_gram g grams then grams else g ∷ grams

-- The 3-grams of a text that is already in lower case.
unfoldable pub grams_from : List ℕ → List Gram
grams_from [] = []
grams_from (a ∷ []) = []
grams_from (a ∷ b ∷ []) = []
grams_from (a ∷ b ∷ c ∷ text) = insert_gram (a ∷ b ∷ c ∷ []) (grams_from (b ∷ c ∷ text))

-- `lower` is `str.lower`, and `at_least i u` is `i / u >= content_threshold`.
module _ (lower : List ℕ → List ℕ) (at_least : ℕ → ℕ → Bool) where
  unfoldable pub ngrams : List ℕ → List Gram
  unfolding grams_from
  ngrams text = grams_from (lower text)

  -- `_jaccard(a, b) >= content_threshold`
  unfoldable pub is_similar : List Gram → List Gram → Bool
  is_similar a b =
      let common = length (filter (λ g. has_gram g b) a) in
      let union = length a + length b - common in
      if is_nil a && is_nil b then at_least 1 1 else at_least common union

-- `existing.update(..)`
abbrev pub update :
    {F : Type 0} → Dict (ChannelScore F) → Dict (ChannelScore F) → Dict (ChannelScore F)
update existing [] = existing
update existing ((name, c) ∷ more) = update (set existing name c) more

abbrev pub scores_of : {F : Type 0} → SearchResult F → Dict (ChannelScore F)
scores_of r = elim r.metadata.channel_scores [ none ↦ [] | some d ↦ d ]

-- The channels of a near duplicate go to the result that is kept.
unfoldable pub attribute : {F : Type 0} → SearchResult F → SearchResult F → SearchResult F
attribute r target =
    let existing = update (scores_of target) (scores_of r) in
    record target {
      metadata = record target.metadata {
        channel_scores = some existing;
        matched_channels = map (λ c. c.0) existing;
      };
    }

module _ {F : Type 0} (lower : List ℕ → List ℕ) (at_least : ℕ → ℕ → Bool) where
  -- The first result that is similar is the target.
  unfoldable pub attribute_first : SearchResult F → List (SearchResult F) → List (SearchResult F)
  unfolding ngrams is_similar attribute
  attribute_first r [] = []
  attribute_first r (target ∷ kept) =
      if is_similar lower at_least (ngrams lower at_least r.content)
        (ngrams lower at_least target.content)
      then attribute r target ∷ kept
      else target ∷ attribute_first r kept

  unfoldable pub deduplicate_from :
      List (SearchResult F) → List (SearchResult F) → List (SearchResult F)
  unfolding ngrams is_similar attribute_first
  deduplicate_from deduped [] = deduped
  deduplicate_from deduped (r ∷ results) =
      let grams = ngrams lower at_least r.content in
      let is_dup =
        any
          (λ (seen : SearchResult F).
            is_similar lower at_least grams (ngrams lower at_least seen.content))
          deduped in
      deduplicate_from (if is_dup then attribute_first r deduped else deduped ++ r ∷ []) results

  unfoldable pub deduplicate : List (SearchResult F) → List (SearchResult F)
  unfolding deduplicate_from
  deduplicate results = deduplicate_from [] results
