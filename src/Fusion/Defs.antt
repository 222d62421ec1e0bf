-- ===== src/Fusion/Defs.antt =====
-- `rrf_fusion`. Scores are of any type with the operations that the code uses of floats. A result in two
-- lists is fused by its first occurrence, as in the code; the metadata of the others is not written.
use flavor_rag.Prelude.{
  ℕ, String, List, Bool, none, some, if◌then◌else◌, truthy, same_text, ◌+◌, [], ◌∷◌, ◌++◌, map,
  get_elem?,
}
use flavor_rag.Prelude.Dict.{Dict, get, set}
use flavor_rag.Prelude.Sort.{sort}
use flavor_rag.Search.{SearchResult, ChannelScore}

pub record FloatOps (F : Type 0) : Type 0 where
  pub leb : F → F → Bool
  pub plus : F → F → F
  pub zero_score : F
  pub one_score : F
  -- `weight / n`
  pub share : F → ℕ → F

-- A result in the list of a channel, with its rank from 0 on.
pub record Entry (F : Type 0) : Type 0 where
  pub channel : String
  pub rank : ℕ
  pub weight : F
  pub result : SearchResult F

-- A value of `scores`, with its key.
pub record Fused (F : Type 0) : Type 0 where
  pub key : List ℕ
  pub score : F
  pub result : SearchResult F
  pub channels : Dict (ChannelScore F)

-- `codes` are the characters of a text; `default_name` is `channel_1` and so on.
module _ {F : Type 0} (ops : FloatOps F) (codes : String → List ℕ) (default_name : ℕ → String)
    (k : ℕ) where
  -- `result.chunk_id or result.content`
  unfoldable pub key_of : SearchResult F → List ℕ
  key_of r = if truthy r.chunk_id then codes r.chunk_id else r.content

  unfoldable pub contribution : Entry F → F
  contribution e = ops.share e.weight (k + e.rank + 1)

  abbrev pub channel_score : Entry F → ChannelScore F
  channel_score e = record {
    rank = e.rank + 1;
    raw_score = e.result.score;
    weight = e.weight;
    rrf_contribution = contribution e;
  }

  -- The loop's body for one result: the value of its key, which is new or has more.
  unfoldable pub add_entry : Entry F → List (Fused F) → List (Fused F)
  unfolding key_of contribution
  add_entry e [] =
      record {
        key = key_of e.result;
        score = contribution e;
        result = e.result;
        channels = set [] e.channel (channel_score e);
      }
      ∷ []
  add_entry e (f ∷ scores) =
      let more : Fused F = record f {
        score = ops.plus f.score (contribution e);
        channels = set f.channels e.channel (channel_score e);
      } in
      if same_text f.key (key_of e.result) then more ∷ scores else f ∷ add_entry e scores

  unfoldable pub add_entries : List (Fused F) → List (Entry F) → List (Fused F)
  unfolding add_entry
  add_entries scores [] = scores
  add_entries scores (e ∷ entries) = add_entries (add_entry e scores) entries

  -- The entries of a channel's list.
  unfoldable pub channel_entries : String → F → ℕ → List (SearchResult F) → List (Entry F)
  channel_entries channel weight rank [] = []
  channel_entries channel weight rank (r ∷ results) =
      record { channel = channel; rank = rank; weight = weight; result = r }
      ∷ channel_entries channel weight (rank + 1) results

  -- `max(0.0, weights.get(channel, 1.0))`
  abbrev pub weight_of : Dict F → String → F
  weight_of weights channel = elim (get weights channel) [
    | none ↦ ops.one_score
    | some w ↦ if ops.leb w ops.zero_score then ops.zero_score else w
  ]

  abbrev pub channel_name : List String → ℕ → String
  channel_name channel_names index = elim (get_elem? channel_names index) [
    | none ↦ default_name (index + 1)
    | some name ↦ name
  ]

  unfoldable pub all_entries :
      Dict F → List String → ℕ → List (List (SearchResult F)) → List (Entry F)
  unfolding channel_entries
  all_entries weights channel_names index [] = []
  all_entries weights channel_names index (results ∷ lists) =
      let channel = channel_name channel_names index in
      channel_entries channel (weight_of weights channel) 0 results
      ++ all_entries weights channel_names (index + 1) lists

  -- What is written into the result.
  unfoldable pub scored : Fused F → SearchResult F
  scored f =
      let r = f.result in
      record r {
        metadata = record r.metadata {
          channel_scores = some f.channels;
          matched_channels = map (λ (c : String × ChannelScore F). c.0) f.channels;
          fusion_score = some f.score;
        };
        score = f.score;
      }

  abbrev pub by_score : Fused F → Fused F → Bool
  by_score f g = ops.leb g.score f.score

  unfoldable pub rrf_fusion :
      Dict F → List String → List (List (SearchResult F)) → List (SearchResult F)
  unfolding add_entries all_entries scored
  rrf_fusion weights channel_names lists =
      map scored (sort by_score (add_entries [] (all_entries weights channel_names 0 lists)))
