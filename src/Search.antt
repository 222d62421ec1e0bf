-- ===== src/Search.antt =====
-- flavorag-server/app/rag/search/base.py: `SearchResult`, over any type of scores (floats there).
-- Texts that the program measures are lists of code points. Of the metadata, the model has the keys
-- that the retrieval code reads or writes; a key that is absent is `none`, or the empty text.
use flavor_rag.Prelude.{ℕ, String, List, Option}
use flavor_rag.Prelude.Dict.{Dict}

pub record ChannelScore (F : Type 0) : Type 0 where
  pub rank : ℕ
  pub raw_score : F
  pub weight : F
  pub rrf_contribution : F

pub record Metadata (F : Type 0) : Type 0 where
  pub kb_id : String
  pub retrieval_channel : Option String
  pub channel_rank : Option ℕ
  pub raw_score : Option F
  pub channel_scores : Option (Dict (ChannelScore F))
  pub matched_channels : List String
  pub fusion_score : Option F

pub record SearchResult (F : Type 0) : Type 0 where
  pub chunk_id : String
  pub content : List ℕ
  pub score : F
  pub doc_id : String
  pub doc_name : String
  pub chunk_index : ℕ
  pub block_type : String
  pub page_start : Option ℕ
  pub page_end : Option ℕ
  pub metadata : Metadata F
  pub file_type : String
  pub content_hash : String
