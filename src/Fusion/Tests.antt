-- ===== src/Fusion/Tests.antt =====
-- The fusion of two short lists, with scores that are numbers.
use flavor_rag.Prelude.{
  ℕ, String, List, none, some, if◌then◌else◌, leb, ◌==◌, ◌+◌, ◌/◌, ◌*◌, ◌≡◌, [], ◌∷◌, map, All,
  arith, refl,
}
use flavor_rag.Prelude.Dict.{set, get}
use flavor_rag.Prelude.Sort.{IsSorted, sort, insert}
use flavor_rag.Search.{SearchResult}
use flavor_rag.Fusion.Defs.{FloatOps, all_entries, rrf_fusion}
use flavor_rag.Fusion.Duplicates.{deduplicate, attribute}
use flavor_rag.Fusion.Totals.{key, ranked, total_from, count, one_if, rrf_fusion_lem}

abbrev hundredths : FloatOps ℕ
hundredths = record {
  leb = leb;
  plus = λ x y. x + y;
  zero_score = 0;
  one_score = 600;
  share = λ w n. w / n;
}

abbrev codes : String → List ℕ
codes s = if s == "a" then 97 ∷ [] else if s == "b" then 98 ∷ [] else []

abbrev default_name : ℕ → String
default_name n = "channel"

abbrev result : String → List ℕ → SearchResult ℕ
result id content = record {
  chunk_id = id;
  content = content;
  score = 1;
  doc_id = "";
  doc_name = "";
  chunk_index = 0;
  block_type = "";
  page_start = none;
  page_end = none;
  metadata = record {
    kb_id = "";
    retrieval_channel = none;
    channel_rank = none;
    raw_score = none;
    channel_scores = none;
    matched_channels = [];
    fusion_score = none;
  };
  file_type = "";
  content_hash = "";
}

abbrev found : List (List (SearchResult ℕ))
found = (result "a" [] ∷ result "b" [] ∷ []) ∷ (result "b" [] ∷ []) ∷ []

abbrev ids : List (SearchResult ℕ) → List String
ids results = map (λ (r : SearchResult ℕ). r.chunk_id) results

-- The result of both channels comes first.
rrf_fusion-found :
    ids (rrf_fusion hundredths codes default_name 60 [] ("vector" ∷ "keyword" ∷ []) found)
    ≡ "b" ∷ "a" ∷ []
unfolding rrf_fusion sort insert set get
rrf_fusion-found = refl

-- "abcd" twice, and "efgh".
deduplicate-twice :
    ids (
      deduplicate
        (λ s. s)
        (λ i u. leb (9 * u) (10 * i))
        (result "a" (97 ∷ 98 ∷ 99 ∷ 100 ∷ []) ∷ result "b" (97 ∷ 98 ∷ 99 ∷ 100 ∷ []) ∷ []))
    ≡ "a" ∷ []
unfolding deduplicate attribute set
deduplicate-twice = refl

-- "ab" and "cd", of which the second is taken for a duplicate.
deduplicate-short :
    ids (
      deduplicate
        (λ s. s)
        (λ i u. leb u i)
        (result "a" (97 ∷ 98 ∷ []) ∷ result "b" (99 ∷ 100 ∷ []) ∷ []))
    ≡ "a" ∷ []
unfolding deduplicate attribute set
deduplicate-short = refl

rrf_fusion_lem_example :
    let out = rrf_fusion hundredths codes default_name 60 [] ("vector" ∷ "keyword" ∷ []) found in
    let entries =
      all_entries hundredths codes default_name 60 [] ("vector" ∷ "keyword" ∷ []) 0 found in
    IsSorted (ranked hundredths codes default_name 60) out
    × All
        (λ (r : SearchResult ℕ).
          total_from hundredths codes default_name 60
            (key hundredths codes default_name 60 r)
            none
            entries
          ≡ some r.score)
        out
    × ((κ : List ℕ)
        → count hundredths codes default_name 60 κ out
          ≡ one_if hundredths codes default_name 60
              (total_from hundredths codes default_name 60 κ none entries))
rrf_fusion_lem_example =
    rrf_fusion_lem hundredths codes default_name 60 [] ("vector" ∷ "keyword" ∷ []) found
      (λ x y h. ground (arith, h)) (λ x y z h g. ground (arith, h, g))
