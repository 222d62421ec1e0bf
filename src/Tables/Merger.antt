-- ===== src/Tables/Merger.antt =====
-- CrossPageTableMerger. The operations on floats and the ratio of difflib.SequenceMatcher are parameters;
-- `is_word` is `\w` on one character.
use flavor_rag.Prelude.{
  is_nil, ℕ, String, List, Bool, Option, none, some, true, false, if◌then◌else◌, ◌&&◌, ◌||◌, not,
  eqb, ltb, in_list, any, ◌+◌, ◌-◌, [], ◌∷◌, ◌++◌, length, map, filter, drop, get_elem?,
}
use flavor_rag.Prelude.Sort.{sort}
use flavor_rag.Chunker.Chars.{CharTests, is_blank}
use flavor_rag.Tables.Values.{
  ValueType, empty_value, number, date, boolean, text, value_type, looks_like_new_table_caption,
}
use flavor_rag.Tables.Blocks.{PdfBlock, PdfBoundingBox, is_table, first_bbox, last_bbox}

pub record Floats (F : Type 0) : Type 0 where
  pub leb : F → F → Bool
  pub plus : F → F → F
  pub minus : F → F → F
  pub divide : F → F → F
  pub of_nat : ℕ → F
  -- `round(x, 4)`
  pub round4 : F → F

-- The thresholds of the constructor, and the constants 0.99 and 2.
pub record Thresholds (F : Type 0) : Type 0 where
  pub bottom_zone_start : F
  pub top_zone_end : F
  pub horizontal_overlap_min : F
  pub header_similarity_min : F
  pub headerless_type_match_min : F
  pub most_headerless : F

pub data Continuation (F : Type 0) : Type 0 where
  apart : Continuation F
  repeated headerless : F → Continuation F

abbrev pub type_code : ValueType → ℕ
type_code empty_value = 0
type_code number = 1
type_code date = 2
type_code boolean = 3
type_code text = 4

abbrev pub same_type : ValueType → ValueType → Bool
same_type a b = eqb (type_code a) (type_code b)

abbrev pub count_type : ValueType → List ValueType → ℕ
count_type t ts = length (filter (same_type t) ts)

-- `Counter(types).most_common(1)[0][0]`: of the most frequent ones the first.
unfoldable pub most_common : ValueType → List ValueType → List ValueType → ValueType
most_common best seen [] = best
most_common best seen (t ∷ ts) =
    most_common (if ltb (count_type best seen) (count_type t seen) then t else best) seen ts

module _ {F : Type 0} (floats : Floats F) (limits : Thresholds F) (chars : CharTests)
    (casefold : List ℕ → List ℕ) (is_word : ℕ → Bool) (similarity : List ℕ → List ℕ → F) where
  abbrev pub zero_float : F
  zero_float = floats.of_nat 0

  abbrev pub larger : F → F → F
  larger x y = if floats.leb y x then x else y

  abbrev pub smaller : F → F → F
  smaller x y = if floats.leb x y then x else y

  -- `x / size if size else 0.0`
  abbrev pub normalized : F → F → F
  normalized x size =
      if floats.leb size zero_float && floats.leb zero_float size
      then zero_float
      else floats.divide x size

  unfoldable pub horizontal_overlap : PdfBoundingBox F → PdfBoundingBox F → F
  horizontal_overlap l r =
      let l0 = normalized l.x0 l.page_width in
      let l1 = normalized l.x1 l.page_width in
      let r0 = normalized r.x0 r.page_width in
      let r1 = normalized r.x1 r.page_width in
      let overlap = larger zero_float (floats.minus (smaller l1 r1) (larger l0 r0)) in
      normalized overlap (floats.minus (larger l1 r1) (smaller l0 r0))

  -- `re.sub(r"[\W_]+", "", value.casefold())`
  abbrev pub normalize_cell : List ℕ → List ℕ
  normalize_cell value = filter (λ c. is_word c && not (eqb c 95)) (casefold value)

  abbrev pub sum_scores : List (List ℕ) → List (List ℕ) → F
  sum_scores [] right = zero_float
  sum_scores (a ∷ left) [] = zero_float
  sum_scores (a ∷ left) (b ∷ right) =
      floats.plus (similarity (normalize_cell a) (normalize_cell b)) (sum_scores left right)

  unfoldable pub row_similarity : List (List ℕ) → List (List ℕ) → F
  row_similarity left right =
      if not (eqb (length left) (length right)) || is_nil left
      then zero_float
      else floats.divide (sum_scores left right) (floats.of_nat (length left))

  -- The cells of a column that are not blank.
  abbrev pub column_values : ℕ → List (List (List ℕ)) → List (List ℕ)
  column_values column [] = []
  column_values column (row ∷ rows) = elim (get_elem? row column) [
    | none ↦ column_values column rows
    | some cell ↦
        if is_blank chars cell then column_values column rows else cell ∷ column_values column rows
  ]

  abbrev pub signature_of : List ValueType → ValueType
  signature_of [] = empty_value
  signature_of (t ∷ ts) = most_common t (t ∷ ts) ts

  -- The expected and the actual type of each column whose expected type is known, from `column` on.
  unfoldable pub comparable :
      List (List (List ℕ)) → ℕ → List (List ℕ) → List (ValueType × ValueType)
  unfolding value_type most_common
  comparable history column [] = []
  comparable history column (cell ∷ headers) =
      let types = map (λ v. value_type chars casefold v) (column_values column history) in
      let expected = signature_of types in
      let rest = comparable history (column + 1) headers in
      if same_type expected empty_value
      then rest
      else (expected, value_type chars casefold cell) ∷ rest

  -- The share of columns that match, and whether a column is not of texts.
  unfoldable pub headerless_type_match : PdfBlock F → PdfBlock F → F × Bool
  unfolding comparable
  headerless_type_match previous candidate =
      let history = drop (length previous.table_rows - 20) previous.table_rows in
      let pairs = comparable history 0 candidate.table_headers in
      let matches = length (filter (λ (p : ValueType × ValueType). same_type p.0 p.1) pairs) in
      if is_nil previous.table_headers
        || not (eqb (length candidate.table_headers) (length previous.table_headers))
        || is_nil pairs
      then (zero_float, false)
      else (
        floats.divide (floats.of_nat matches) (floats.of_nat (length pairs)),
        any (λ (p : ValueType × ValueType). not (same_type p.0 text)) pairs,
      )

  -- The continuation of tables whose pages, captions and places fit.
  unfoldable pub continuation_of :
      PdfBoundingBox F → PdfBoundingBox F → PdfBlock F → PdfBlock F → Continuation F
  unfolding horizontal_overlap row_similarity headerless_type_match
  continuation_of prev_box next_box previous candidate =
      let geometry = horizontal_overlap prev_box next_box in
      let header_similarity = row_similarity previous.table_headers candidate.table_headers in
      let (type_match, has_non_text) = headerless_type_match previous candidate in
      let half = λ (x : F). floats.divide (floats.plus geometry x) (floats.of_nat 2) in
      if not (floats.leb limits.horizontal_overlap_min geometry)
      then apart
      else if floats.leb limits.header_similarity_min header_similarity
      then repeated (smaller (floats.of_nat 1) (half header_similarity))
      else if has_non_text && floats.leb limits.headerless_type_match_min type_match
      then headerless (smaller limits.most_headerless (half type_match))
      else apart

  abbrev pub in_zones : PdfBoundingBox F → PdfBoundingBox F → Bool
  in_zones prev_box next_box =
      floats.leb limits.bottom_zone_start (normalized prev_box.bottom prev_box.page_height)
      && floats.leb (normalized next_box.top next_box.page_height) limits.top_zone_end

  unfoldable pub continuation_mode : PdfBlock F → PdfBlock F → Continuation F
  unfolding continuation_of looks_like_new_table_caption first_bbox last_bbox
  continuation_mode previous candidate =
      if not (eqb (previous.page_end + 1) candidate.page_start)
        || looks_like_new_table_caption chars casefold candidate.preceding_text
      then apart
      else elim (last_bbox previous) [
        | none ↦ apart
        | some prev_box ↦ elim (first_bbox candidate) [
          | none ↦ apart
          | some next_box ↦
              if not (in_zones prev_box next_box)
                || not (eqb (length previous.table_headers) (length candidate.table_headers))
                || is_nil previous.table_headers
              then apart
              else continuation_of prev_box next_box previous candidate
        ]
      ]

  -- `list(dict.fromkeys(xs))`: the first occurrences.
  abbrev pub unique_pages : List ℕ → List ℕ → List ℕ
  unique_pages seen [] = seen
  unique_pages seen (x ∷ xs) =
      unique_pages (if any (λ y. eqb x y) seen then seen else seen ++ x ∷ []) xs

  abbrev pub unique_ids : List String → List String → List String
  unique_ids seen [] = seen
  unique_ids seen (x ∷ xs) = unique_ids (if in_list x seen then seen else seen ++ x ∷ []) xs

  abbrev pub or_value : {A : Type 0} → Option A → A → A
  or_value none a = a
  or_value (some b) a = b

  -- The rows that a fragment adds; without a header of its own, its first row was taken for one.
  abbrev pub added_rows : Bool → PdfBlock F → List (List (List ℕ))
  added_rows is_headerless candidate =
      if is_headerless then candidate.table_headers ∷ candidate.table_rows else candidate.table_rows

  abbrev pub added_pages : Bool → PdfBlock F → List ℕ
  added_pages is_headerless candidate =
      if is_headerless
      then candidate.page_start ∷ candidate.table_row_pages
      else candidate.table_row_pages

  unfoldable pub merge_pair : PdfBlock F → PdfBlock F → Bool → F → PdfBlock F
  merge_pair previous candidate is_headerless confidence = record previous {
    table_rows = previous.table_rows ++ added_rows is_headerless candidate;
    table_row_pages = previous.table_row_pages ++ added_pages is_headerless candidate;
    page_end = candidate.page_end;
    bboxes = previous.bboxes ++ candidate.bboxes;
    cross_page = true;
    continuation_pages = some (
        unique_pages [] (
          or_value previous.continuation_pages (previous.page_start ∷ [])
          ++ or_value candidate.continuation_pages (candidate.page_start ∷ [])));
    header_mode = if is_headerless then "headerless" else "repeated";
    merge_confidence = some (floats.round4 confidence);
    source_table_ids = some (
        unique_ids [] (
          or_value previous.source_table_ids (previous.block_id ∷ [])
          ++ or_value candidate.source_table_ids (candidate.block_id ∷ [])));
  }

  -- `output[-1]` together with the candidate: one block or two.
  unfoldable pub join_candidate : PdfBlock F → PdfBlock F → List (PdfBlock F)
  unfolding continuation_mode merge_pair
  join_candidate previous candidate =
      if is_table previous.block_type && is_table candidate.block_type
      then elim (continuation_mode previous candidate) as (λ m. List (PdfBlock F)) [
        | apart ↦ previous ∷ candidate ∷ []
        | repeated confidence ↦ merge_pair previous candidate false confidence ∷ []
        | headerless confidence ↦ merge_pair previous candidate true confidence ∷ []
      ]
      else previous ∷ candidate ∷ []

  -- The output with one block more.
  unfoldable pub add_block : List (PdfBlock F) → PdfBlock F → List (PdfBlock F)
  unfolding join_candidate
  add_block [] candidate = candidate ∷ []
  add_block (b ∷ []) candidate = join_candidate b candidate
  add_block (b ∷ c ∷ output) candidate = b ∷ add_block (c ∷ output) candidate

  unfoldable pub add_blocks : List (PdfBlock F) → List (PdfBlock F) → List (PdfBlock F)
  unfolding add_block
  add_blocks output [] = output
  add_blocks output (b ∷ blocks) = add_blocks (add_block output b) blocks

  abbrev pub top_of : PdfBlock F → F
  top_of b = elim (first_bbox b) [ none ↦ zero_float | some box ↦ box.top ]

  abbrev pub left_of : PdfBlock F → F
  left_of b = elim (first_bbox b) [ none ↦ zero_float | some box ↦ box.x0 ]

  -- The key of the sort: page, top and left.
  unfoldable pub reads_before : PdfBlock F → PdfBlock F → Bool
  unfolding first_bbox
  reads_before a b =
      ltb a.page_start b.page_start
      || eqb a.page_start b.page_start
        && (not (floats.leb (top_of b) (top_of a))
            || floats.leb (top_of a) (top_of b) && floats.leb (left_of a) (left_of b))

  unfoldable pub merge : List (PdfBlock F) → List (PdfBlock F)
  unfolding add_blocks reads_before
  merge blocks = add_blocks [] (sort reads_before blocks)
