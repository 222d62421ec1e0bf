-- ===== src/Chunker/Typed/Parts.antt =====
-- The sub-chunkers of `_BlockAwareChunker`, one for each kind of block. The texts that the code puts
-- in are written as code points. A kind is the label of a chunk: `PARA` is "PARAGRAPH" there.
use flavor_rag.Prelude.{
  is_nil, ℕ, suc, zero, List, Bool, Option, none, some, true, false, if◌then◌else◌, ◌&&◌, ◌||◌, not,
  eqb, leb, ltb, ◌+◌, ◌/◌, ◌%◌, max, [], ◌∷◌, ◌++◌, length, map, filter, get_elem?, batches,
}
use flavor_rag.Chunker.Chars.{CharTests}
use flavor_rag.Chunker.Normalize.{starts_with}
use flavor_rag.Chunker.Structure.Lines.{trim_right, tail_of, holds_char}
use flavor_rag.Chunker.Structure.Blocks.{BlockKind, table, image}
use flavor_rag.Chunker.Typed.Patterns.{is_table_separator, is_list_item, strip, split_at, join}

pub record BlockAwareOptions : Type 0 where
  pub table_max_rows : ℕ
  pub code_max_lines : ℕ
  pub heading_as_path : Bool
  pub list_max_items : ℕ
  pub target_chars : ℕ
  pub max_chars : ℕ
  pub min_chars : ℕ

-- A `ChunkRecord` with what this chunker puts in it; `""` for the block type is `none`.
pub record TypedChunk : Type 0 where
  pub content : List ℕ
  pub chunk_index : ℕ
  pub block_type : Option BlockKind
  pub embedding_text : List ℕ
  pub outline_path : List (List ℕ)

abbrev pub plain_chunk : List ℕ → ℕ → TypedChunk
plain_chunk content index = record {
  content = content;
  chunk_index = index;
  block_type = none;
  embedding_text = [];
  outline_path = [];
}

abbrev pub typed_chunk : BlockKind → List ℕ → List ℕ → ℕ → TypedChunk
typed_chunk kind content embedding index = record {
  content = content;
  chunk_index = index;
  block_type = some kind;
  embedding_text = embedding;
  outline_path = [];
}

-- The rows of a table, as the loop over the lines sorts them.
pub record TableRows : Type 0 where
  pub header_rows : List (List ℕ)
  pub sep_row : List ℕ
  pub data_rows : List (List ℕ)
  pub past_sep : Bool

-- `str(n)`, on fuel.
abbrev pub decimal_from : ℕ → ℕ → List ℕ
decimal_from zero n = []
decimal_from (suc fuel) n =
    let higher = decimal_from fuel (n / 10) in
    (if ltb n 10 then [] else higher) ++ (48 + n % 10) ∷ []

-- Texts with numbers behind them, from `index` on.
abbrev pub numbered_chunks : (List ℕ → ℕ → TypedChunk) → ℕ → List (List ℕ) → List TypedChunk
numbered_chunks make index [] = []
numbered_chunks make index (s ∷ parts) = make s index ∷ numbered_chunks make (index + 1) parts

module _ (chars : CharTests) where
  unfoldable pub sort_row : TableRows → List ℕ → TableRows
  unfolding strip is_table_separator
  sort_row t line =
      let stripped = strip chars line in
      if is_nil stripped
      then t
      else if is_table_separator chars stripped
      then record {
        header_rows = t.header_rows;
        sep_row = stripped;
        data_rows = t.data_rows;
        past_sep = true;
      }
      else if t.past_sep
      then record {
        header_rows = t.header_rows;
        sep_row = t.sep_row;
        data_rows = t.data_rows ++ stripped ∷ [];
        past_sep = true;
      }
      else record {
        header_rows = t.header_rows ++ stripped ∷ [];
        sep_row = t.sep_row;
        data_rows = t.data_rows;
        past_sep = false;
      }

  unfoldable pub sort_rows : TableRows → List (List ℕ) → TableRows
  unfolding sort_row
  sort_rows t [] = t
  sort_rows t (line ∷ lines) = sort_rows (sort_row t line) lines

  -- `_parse_table_header` and `_parse_table_cells`
  unfoldable pub parse_table_cells : List ℕ → List (List ℕ)
  unfolding strip split_at
  parse_table_cells row =
      map (λ c. strip chars c) (filter (λ c. not (is_nil (strip chars c))) (split_at 124 row))

  -- "name: cell" for each cell; a cell behind the last name is "colN: cell".
  unfoldable pub kv_pairs : List (List ℕ) → ℕ → List (List ℕ) → List (List ℕ)
  kv_pairs col_names ci [] = []
  kv_pairs col_names ci (cell ∷ cells) =
      let named = 99 ∷ 111 ∷ 108 ∷ decimal_from (ci + 2) (ci + 1) in
      let col_name : List ℕ = elim (get_elem? col_names ci) [ none ↦ named | some c ↦ c ] in
      (col_name ++ (58 ∷ 32 ∷ cell)) ∷ kv_pairs col_names (ci + 1) cells

  -- "headers: a, b"
  abbrev pub header_context : List (List ℕ) → List ℕ
  header_context [] = []
  header_context (c ∷ names) =
      (104 ∷ 101 ∷ 97 ∷ 100 ∷ 101 ∷ 114 ∷ 115 ∷ 58 ∷ 32 ∷ []) ++ join (44 ∷ 32 ∷ []) (c ∷ names)

  -- The original fragment and the key:value text of a batch of rows.
  unfoldable pub table_batch : TableRows → List (List ℕ) → List (List ℕ) → ℕ → TypedChunk
  unfolding kv_pairs parse_table_cells
  table_batch t col_names batch index =
      let sep = if is_nil t.sep_row then [] else t.sep_row ∷ [] in
      let kv_lines =
        map (λ row. join (59 ∷ 32 ∷ []) (kv_pairs col_names 0 (parse_table_cells row))) batch in
      typed_chunk table (join (10 ∷ []) (t.header_rows ++ (sep ++ batch)))
        (join (10 ∷ []) (filter (λ s. not (is_nil s)) (header_context col_names ∷ kv_lines))) index

  abbrev pub table_batches : TableRows → List (List ℕ) → ℕ → List (List (List ℕ)) → List TypedChunk
  table_batches t col_names index [] = []
  table_batches t col_names index (b ∷ bs) =
      table_batch t col_names b index ∷ table_batches t col_names (index + 1) bs

  abbrev pub first_row : List (List ℕ) → List ℕ
  first_row [] = []
  first_row (row ∷ rows) = row

  unfoldable pub chunk_table : BlockAwareOptions → List ℕ → List TypedChunk
  unfolding sort_rows split_at parse_table_cells batches table_batch
  chunk_table options text =
      let lines = split_at 10 text in
      let whole = typed_chunk table text [] 0 ∷ [] in
      let t =
        sort_rows (record { header_rows = []; sep_row = []; data_rows = []; past_sep = false })
          lines in
      if ltb (length lines) 2 || is_nil t.data_rows
      then whole
      else table_batches t (parse_table_cells (first_row t.header_rows)) 0
          (batches (max 1 options.table_max_rows) t.data_rows)

  -- `range(0, n, 0)` raises ValueError.
  abbrev pub in_batches : ℕ → List (List ℕ) → Option (List TypedChunk)
  in_batches zero lines = none
  in_batches (suc size) lines =
      some (numbered_chunks plain_chunk 0 (map (λ b. join (10 ∷ []) b) (batches (suc size) lines)))

  unfoldable pub chunk_code : BlockAwareOptions → List ℕ → Option (List TypedChunk)
  unfolding split_at batches
  chunk_code options text =
      let lines = split_at 10 text in
      if leb (length lines) options.code_max_lines
      then some (plain_chunk text 0 ∷ [])
      else in_batches options.code_max_lines lines

  unfoldable pub chunk_list : BlockAwareOptions → List ℕ → Option (List TypedChunk)
  unfolding split_at trim_right is_list_item batches
  chunk_list options text =
      let items = filter (λ line. is_list_item chars (trim_right chars line)) (split_at 10 text) in
      if leb (length items) options.list_max_items
      then some (plain_chunk text 0 ∷ [])
      else in_batches options.list_max_items items

  abbrev pub take_until : ℕ → List ℕ → List ℕ
  take_until close [] = []
  take_until close (c ∷ cs) = if eqb c close then [] else c ∷ take_until close cs

  -- `^!\[([^\]]*)\]`
  unfoldable pub alt_text : List ℕ → List ℕ
  alt_text text =
      let inner = tail_of (tail_of text) in
      if starts_with (33 ∷ 91 ∷ []) text && holds_char 93 inner then take_until 93 inner else []

  unfoldable pub chunk_image : List ℕ → List TypedChunk
  unfolding alt_text
  chunk_image text =
      let alt = alt_text text in
      let embedding =
        if is_nil alt then [] else (91 ∷ 0x56fe ∷ 0x7247 ∷ 58 ∷ 32 ∷ alt) ++ 93 ∷ [] in
      typed_chunk image text embedding 0 ∷ []
