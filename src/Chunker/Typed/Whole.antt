-- ===== src/Chunker/Typed/Whole.antt =====
-- `_BlockAwareChunker.chunk`. `none` stands for a loop that does not end and for `range` with step 0.
use flavor_rag.Prelude.{
  is_nil, ℕ, List, Bool, Option, none, some, if◌then◌else◌, leb, ◌+◌, [], ◌∷◌, ◌++◌, length, map,
  eqb,
}
use flavor_rag.Prelude.Optional.{◌>>=◌}
use flavor_rag.Chunker.Chars.{CharTests, slice, is_blank}
use flavor_rag.Chunker.Normalize.{skip_while}
use flavor_rag.Chunker.Structure.Lines.{unify_newlines}
use flavor_rag.Chunker.Structure.Blocks.{
  BlockKind, heading, code, atomic, para, table, list, image, Block,
}
use flavor_rag.Chunker.Typed.Patterns.{strip, join}
use flavor_rag.Chunker.Typed.Parsing.{parse_blocks}
use flavor_rag.Chunker.Typed.Parts.{
  BlockAwareOptions, TypedChunk, typed_chunk, chunk_table, chunk_code, chunk_list, chunk_image,
}
use flavor_rag.Chunker.Typed.Paragraphs.{chunk_paragraph}
use flavor_rag.Chunker.Typed.Merging.{pack_chunks}

-- The heading joins the path; the path keeps its last four.
unfoldable pub push_heading : List (List ℕ) → List ℕ → List (List ℕ)
push_heading path h_text =
    let longer = path ++ h_text ∷ [] in if leb (length longer) 4 then longer else tail_path longer
  where
    tail_path : List (List ℕ) → List (List ℕ)
    tail_path [] = []
    tail_path (p ∷ ps) = ps

-- "[path]", a line break, and the text.
abbrev pub below_path : List (List ℕ) → List ℕ → List ℕ
below_path path s = (91 ∷ join (32 ∷ 62 ∷ 32 ∷ []) path) ++ (93 ∷ 10 ∷ s)

-- The kind and the heading path that a chunk is given.
unfoldable pub place_chunk : BlockKind → List (List ℕ) → TypedChunk → TypedChunk
unfolding join
place_chunk kind path r = record {
  content = if is_nil path then r.content else below_path path r.content;
  chunk_index = r.chunk_index;
  block_type = elim r.block_type [ none ↦ some kind | some k ↦ some k ];
  embedding_text =
      if is_nil path
      then r.embedding_text
      else if is_nil r.embedding_text
      then []
      else below_path path r.embedding_text;
  outline_path = path;
}

abbrev pub reindex : ℕ → List TypedChunk → List TypedChunk
reindex i [] = []
reindex i (r ∷ rs) =
    record {
      content = r.content;
      chunk_index = i;
      block_type = r.block_type;
      embedding_text = r.embedding_text;
      outline_path = r.outline_path;
    }
    ∷ reindex (i + 1) rs

module _ (chars : CharTests) (isupper : ℕ → Bool) (options : BlockAwareOptions)
    (text : List ℕ) where
  -- `body.strip().lstrip('#').strip()`
  abbrev pub heading_text : List ℕ → List ℕ
  heading_text body = strip chars (skip_while (λ c. eqb c 35) (strip chars body))

  -- The sub-chunker of the kind of block.
  unfoldable pub chunk_block : BlockKind → List ℕ → Option (List TypedChunk)
  unfolding chunk_table chunk_code chunk_list chunk_image chunk_paragraph
  chunk_block table body = some (chunk_table chars options body)
  chunk_block code body = chunk_code chars options body
  chunk_block list body = chunk_list chars options body
  chunk_block image body = some (chunk_image chars body)
  chunk_block para body = chunk_paragraph chars isupper body options
  chunk_block heading body = chunk_paragraph chars isupper body options
  chunk_block atomic body = chunk_paragraph chars isupper body options

  abbrev pub next_path : BlockKind → List (List ℕ) → List ℕ → List (List ℕ)
  next_path heading path body =
      if options.heading_as_path then push_heading path (heading_text body) else path
  next_path other path body = path

  -- The chunks of one block.
  abbrev pub placed_chunks : BlockKind → List (List ℕ) → List ℕ → Option (List TypedChunk)
  placed_chunks heading path body =
      some (if options.heading_as_path then [] else typed_chunk heading body [] 0 ∷ [])
  placed_chunks other path body =
      chunk_block other body >>= λ sub. some (map (place_chunk other path) sub)

  unfoldable pub dispatch : List (List ℕ) → List Block → Option (List TypedChunk)
  unfolding push_heading chunk_block place_chunk strip
  dispatch path [] = some []
  dispatch path (blk ∷ blocks) =
      let body = slice blk.start blk.end text in
      let rest = dispatch (next_path blk.kind path body) blocks in
      placed_chunks blk.kind path body >>= λ sub. rest >>= λ more. some (sub ++ more)

unfoldable pub block_aware_chunk :
    CharTests → (ℕ → Bool) → BlockAwareOptions → List ℕ → Option (List TypedChunk)
unfolding unify_newlines parse_blocks dispatch pack_chunks
block_aware_chunk chars isupper options text =
    let unified = unify_newlines text in
    if is_blank chars text
    then some []
    else dispatch chars isupper options unified [] (parse_blocks chars unified) >>= λ raw.
        some (reindex 0 (pack_chunks options raw))
