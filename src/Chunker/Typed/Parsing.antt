-- ===== src/Chunker/Typed/Parsing.antt =====
-- `_parse_blocks`. At most one of the paragraph, the code and the table is open at a time, so that the
-- flags and their starts are one `Open` here.
use flavor_rag.Prelude.{
  is_nil, ℕ, suc, zero, List, Bool, false, if◌then◌else◌, ◌&&◌, ◌||◌, not, [], ◌∷◌, ◌++◌, length,
}
use flavor_rag.Chunker.Chars.{CharTests}
use flavor_rag.Chunker.Structure.Lines.{
  Line, lines_from, trim_right, is_code_fence, is_heading, is_atomic_image, is_atomic_link,
}
use flavor_rag.Chunker.Structure.Blocks.{Block, block, heading, code, para, table, list, image}
use flavor_rag.Chunker.Typed.Patterns.{is_table_row, is_table_separator, is_list_item, strip}

pub data Open : Type 0 where
  nothing : Open
  open_para open_code open_table : ℕ → Open

pub record Parser : Type 0 where
  pub blocks : List Block
  pub opened : Open

abbrev pub close_open : Parser → ℕ → List Block
close_open st pos = elim st.opened [
  | nothing ↦ st.blocks
  | open_para start ↦ st.blocks ++ block para start pos ∷ []
  | open_code start ↦ st.blocks ++ block code start pos ∷ []
  | open_table start ↦ st.blocks ++ block table start pos ∷ []
]

-- The open paragraph goes on, or one begins.
abbrev pub extend : Open → ℕ → Open
extend nothing pos = open_para pos
extend (open_para start) pos = open_para start
extend (open_code start) pos = open_code start
extend (open_table start) pos = open_table start

-- The block of the list that begins at `start`, and the lines behind it.
abbrev pub list_block : List Block → ℕ → ℕ × List Line → Parser × List Line
list_block closed start (end, rest) =
    (record { blocks = closed ++ block list start end ∷ []; opened = nothing }, rest)

module _ (chars : CharTests) where
  abbrev pub begins_item : List Line → Bool
  begins_item [] = false
  begins_item (l ∷ ls) = is_list_item chars (trim_right chars l.content)

  -- The inner loop over a list: where the list ends, and the lines behind it.
  unfoldable pub list_span : ℕ → List Line → ℕ × List Line
  unfolding trim_right is_list_item
  list_span pos [] = (pos, [])
  list_span pos (l ∷ ls) =
      let rest = list_span l.next ls in
      if is_nil (trim_right chars l.content)
      then (if begins_item ls then rest else (l.next, ls))
      else if is_list_item chars (trim_right chars l.content)
      then rest
      else (pos, l ∷ ls)

  -- A line that is not in a code block or a table: the state after it, and the lines behind it.
  unfoldable pub parse_line : Parser → Line → List Line → Parser × List Line
  unfolding is_table_row is_table_separator is_heading is_atomic_image is_atomic_link list_span
  parse_line st l ls =
      let trimmed = trim_right chars l.content in
      let closed = close_open st l.start in
      if is_table_row chars l.content || is_table_separator chars trimmed
      then (record { blocks = closed; opened = open_table l.start }, ls)
      else if is_nil trimmed
      then (record { blocks = closed; opened = nothing }, ls)
      else if is_heading chars trimmed
      then (record { blocks = closed ++ block heading l.start l.next ∷ []; opened = nothing }, ls)
      else if is_atomic_image chars trimmed || is_atomic_link chars trimmed
      then (record { blocks = closed ++ block image l.start l.next ∷ []; opened = nothing }, ls)
      else if is_list_item chars trimmed
      then list_block closed l.start (list_span l.start (l ∷ ls))
      else (record { blocks = st.blocks; opened = extend st.opened l.start }, ls)

  -- One round of the loop. A line that ends a table is looked at again.
  unfoldable pub parse_round : Parser → Line → List Line → Parser × List Line
  unfolding parse_line is_code_fence strip
  parse_round st l ls =
      let trimmed = trim_right chars l.content in
      elim st.opened [
        | open_code start ↦
            if is_code_fence chars trimmed
            then (
              record { blocks = st.blocks ++ block code start l.next ∷ []; opened = nothing },
              ls,
            )
            else (st, ls)
        | open_table start ↦
            if is_code_fence chars trimmed
            then (record { blocks = close_open st l.start; opened = open_code l.start }, ls)
            else if not (is_table_row chars l.content) && not (is_nil (strip chars trimmed))
            then parse_line (record { blocks = close_open st l.start; opened = nothing }) l ls
            else (st, ls)
        | open_para start ↦
            if is_code_fence chars trimmed
            then (record { blocks = close_open st l.start; opened = open_code l.start }, ls)
            else parse_line st l ls
        | nothing ↦
            if is_code_fence chars trimmed
            then (record { blocks = st.blocks; opened = open_code l.start }, ls)
            else parse_line st l ls
      ]

  -- The loop, on fuel; a round takes at least one line.
  unfoldable pub parse_lines : ℕ → Parser → List Line → Parser
  unfolding parse_round
  parse_lines zero st ls = st
  parse_lines (suc fuel) st [] = st
  parse_lines (suc fuel) st (l ∷ ls) =
      let (st', rest) = parse_round st l ls in parse_lines fuel st' rest

  unfoldable pub parse_blocks : List ℕ → List Block
  unfolding parse_lines lines_from
  parse_blocks text =
      let ls = lines_from 0 text in
      close_open (parse_lines (length ls) (record { blocks = []; opened = nothing }) ls)
        (length text)
