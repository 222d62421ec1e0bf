-- ===== src/Chunker/Structure/Blocks.antt =====
-- `_segment_to_blocks` and `_coalesce_trailing_blanks`. Inside a fence the code is in no paragraph, so
-- that its two flags and their starts are one `Mode` here.
use flavor_rag.Prelude.{is_nil, ℕ, List, Bool, if◌then◌else◌, ◌||◌, [], ◌∷◌, ◌++◌, length, all}
use flavor_rag.Chunker.Chars.{CharTests, one_of, slice}
use flavor_rag.Chunker.Structure.Lines.{
  Line, lines_from, trim_right, is_code_fence, is_heading, is_atomic_image, is_atomic_link,
}

pub data BlockKind : Type 0 where
  heading code atomic para table list image : BlockKind

pub record Block : Type 0 where
  pub kind : BlockKind
  pub start : ℕ
  pub end : ℕ

pub data Mode : Type 0 where
  outside : Mode
  in_fence in_para : ℕ → Mode

pub record Segmenter : Type 0 where
  pub blocks : List Block
  pub mode : Mode

abbrev pub block : BlockKind → ℕ → ℕ → Block
block kind start end = record { kind = kind; start = start; end = end }

-- The blocks with the open paragraph, if there is one, closed at the position.
abbrev pub close_para : Segmenter → ℕ → List Block
close_para st pos = elim st.mode [
  | outside ↦ st.blocks
  | in_fence start ↦ st.blocks
  | in_para start ↦ st.blocks ++ block para start pos ∷ []
]

-- A line of regular text.
abbrev pub extend_para : Mode → ℕ → Mode
extend_para outside pos = in_para pos
extend_para (in_para start) pos = in_para start
extend_para (in_fence start) pos = in_fence start

module _ (chars : CharTests) where
  -- A line outside the fences.
  unfoldable pub read_line : Segmenter → Line → Segmenter
  unfolding trim_right is_code_fence is_heading is_atomic_image is_atomic_link
  read_line st l =
      let trimmed = trim_right chars l.content in
      if is_code_fence chars trimmed
      then record { blocks = close_para st l.start; mode = in_fence l.start }
      else if is_nil trimmed
      then record { blocks = close_para st l.start; mode = outside }
      else if is_heading chars trimmed
      then record {
        blocks = close_para st l.start ++ block heading l.start l.next ∷ [];
        mode = outside;
      }
      else if is_atomic_image chars trimmed || is_atomic_link chars trimmed
      then record {
        blocks = close_para st l.start ++ block atomic l.start l.next ∷ [];
        mode = outside;
      }
      else record { blocks = st.blocks; mode = extend_para st.mode l.start }

  -- One round of the loop.
  unfoldable pub segment_line : Segmenter → Line → Segmenter
  unfolding read_line
  segment_line st l = elim st.mode [
    | outside ↦ read_line st l
    | in_para start ↦ read_line st l
    | in_fence start ↦
        if is_code_fence chars (trim_right chars l.content)
        then record { blocks = st.blocks ++ block code start l.next ∷ []; mode = outside }
        else st
  ]

  unfoldable pub segment_lines : Segmenter → List Line → Segmenter
  unfolding segment_line
  segment_lines st [] = st
  segment_lines st (l ∷ ls) = segment_lines (segment_line st l) ls

  -- The block that is open at the end of the text is closed there.
  abbrev pub flush : Segmenter → ℕ → List Block
  flush st n = elim st.mode [
    | outside ↦ st.blocks
    | in_fence start ↦ st.blocks ++ block code start n ∷ []
    | in_para start ↦ st.blocks ++ block para start n ∷ []
  ]

  abbrev pub is_all_blank : List ℕ → ℕ → ℕ → Bool
  is_all_blank text start end = all (λ c. one_of c (32 ∷ 9 ∷ 13 ∷ 10 ∷ [])) (slice start end text)

  unfoldable pub coalesce_from : List ℕ → Block → List Block → List Block
  coalesce_from text prev [] = prev ∷ []
  coalesce_from text prev (cur ∷ blocks) =
      let blank = is_all_blank text prev.end cur.start in
      let merged = coalesce_from text (record prev { end = cur.start }) blocks in
      let apart = coalesce_from text cur blocks in if blank then merged else prev ∷ apart

  unfoldable pub coalesce_trailing_blanks : List ℕ → List Block → List Block
  unfolding coalesce_from
  coalesce_trailing_blanks text [] = []
  coalesce_trailing_blanks text (b ∷ blocks) = coalesce_from text b blocks

  unfoldable pub segment_to_blocks : List ℕ → List Block
  unfolding segment_lines lines_from coalesce_trailing_blanks
  segment_to_blocks text = coalesce_trailing_blanks text (
      flush (segment_lines (record { blocks = []; mode = outside }) (lines_from 0 text))
        (length text))
