-- ===== src/Chunker/Structure/Packing.antt =====
-- `_pack_blocks_to_chunks`, `_materialize` and `chunk` of `_StructureAwareChunker`. The options are
-- numbers that are not negative; an overlap below 0 is as one of 0.
use flavor_rag.Prelude.{
  is_nil, ℕ, suc, zero, List, Option, none, some, if◌then◌else◌, ◌&&◌, ltb, leb, ◌+◌, ◌-◌, ◌*◌, ◌/◌,
  min, [], ◌∷◌, ◌++◌, length, drop, not,
}
use flavor_rag.Chunker.Chars.{CharTests, slice, is_blank}
use flavor_rag.Chunker.Fixed.{ChunkRecord, Window}
use flavor_rag.Chunker.Structure.Lines.{unify_newlines}
use flavor_rag.Chunker.Structure.Blocks.{Block, segment_to_blocks}

pub record TextBoundaryOptions : Type 0 where
  pub target_chars : ℕ
  pub overlap_chars : ℕ
  pub max_chars : ℕ
  pub min_chars : ℕ

abbrev pub window : ℕ → ℕ → Window
window s e = record { start = s; end = e }

module _ (options : TextBoundaryOptions) where
  -- The inner loop: where the chunk from `start` ends, and the blocks left over.
  unfoldable pub absorb : ℕ → ℕ → List Block → ℕ × List Block
  absorb start end [] = (end, [])
  absorb start end (b ∷ blocks) =
      let rest = absorb start b.end blocks in
      if leb (b.end - start) options.max_chars
      then rest
      else if ltb (end - start) options.min_chars
      then (b.end, blocks)
      else (end, b ∷ blocks)

  -- The outer loop, on fuel; a round takes at least one block.
  unfoldable pub pack_ranges : ℕ → List Block → List Window
  unfolding absorb
  pack_ranges zero blocks = []
  pack_ranges (suc fuel) [] = []
  pack_ranges (suc fuel) (b ∷ blocks) =
      let (end, rest) = absorb b.start b.end blocks in window b.start end ∷ pack_ranges fuel rest

  -- A small last range is merged into the one before it.
  unfoldable pub merge_last : List Window → List Window
  merge_last [] = []
  merge_last (r ∷ []) = r ∷ []
  merge_last (prev ∷ last ∷ []) =
      if ltb (last.end - last.start) (min options.min_chars (options.target_chars / 2))
        && leb (last.end - prev.start) (options.max_chars * 2)
      then window prev.start last.end ∷ []
      else prev ∷ last ∷ []
  merge_last (r ∷ s ∷ t ∷ rs) = r ∷ merge_last (s ∷ t ∷ rs)

  unfoldable pub pack_blocks_to_chunks : List Block → List Window
  unfolding pack_ranges merge_last
  pack_blocks_to_chunks blocks = merge_last (pack_ranges (length blocks) blocks)

-- The last `n` characters.
unfoldable pub tail_by_chars : List ℕ → ℕ → List ℕ
tail_by_chars s n = if leb n 0 then [] else if leb (length s) n then s else drop (length s - n) s

module _ (chars : CharTests) (text : List ℕ) (overlap : ℕ) where
  -- The text that goes before a chunk: the end of the one before it, if there is something to read in it.
  abbrev pub repeated : Option (List ℕ) → List ℕ
  repeated none = []
  repeated (some prev_tail) =
      if ltb 0 overlap && not (is_blank chars prev_tail) then prev_tail else []

  unfoldable pub materialize_from : ℕ → Option (List ℕ) → List Window → List ChunkRecord
  unfolding tail_by_chars
  materialize_from k prev_tail [] = []
  materialize_from k prev_tail (r ∷ ranges) =
      let body = slice r.start r.end text in
      record { content = repeated prev_tail ++ body; chunk_index = k }
      ∷ materialize_from (k + 1)
          (if ltb 0 overlap then some (tail_by_chars body overlap) else prev_tail) ranges

-- The text is that after the line ends have been unified.
unfoldable pub chunk_unified : CharTests → TextBoundaryOptions → List ℕ → List ChunkRecord
unfolding segment_to_blocks pack_blocks_to_chunks materialize_from
chunk_unified chars options text =
    let blocks = segment_to_blocks chars text in
    if is_nil blocks
    then record { content = text; chunk_index = 0 } ∷ []
    else materialize_from chars text options.overlap_chars 0 none
        (pack_blocks_to_chunks options blocks)

unfoldable pub structure_chunk : CharTests → TextBoundaryOptions → List ℕ → List ChunkRecord
unfolding unify_newlines chunk_unified
structure_chunk chars options text =
    if is_blank chars text then [] else chunk_unified chars options (unify_newlines text)
