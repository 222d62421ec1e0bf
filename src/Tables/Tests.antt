-- ===== src/Tables/Tests.antt =====
-- Kinds of cells, and tables that go on on the next page, with numbers for floats.
use flavor_rag.Prelude.{
  ℕ, List, none, true, false, ◌||◌, leb, ◌+◌, ◌-◌, ◌*◌, ◌/◌, ◌≡◌, [], ◌∷◌, map, refl, All,
}
use flavor_rag.Prelude.Sort.{sort, insert}
use flavor_rag.Chunker.Chars.{CharTests, between, one_of}
use flavor_rag.Tables.Values.{
  empty_value, number, date, boolean, text, value_type, looks_like_new_table_caption,
}
use flavor_rag.Tables.Blocks.{PdfBlock, table}
use flavor_rag.Tables.Merger.{Floats, Thresholds, merge, reads_before}
use flavor_rag.Tables.Rows.{all_rows, Aligned, other_blocks}
use flavor_rag.Tables.Headers.{Any, Restored, Carries}
use flavor_rag.Tables.Continued.{merge_lem}

abbrev ascii : CharTests
ascii = record {
  isspace = λ c. one_of c (32 ∷ 9 ∷ 10 ∷ 13 ∷ []);
  isalpha = λ c. between 65 90 c || between 97 122 c;
  isdigit = λ c. between 48 57 c;
  isdecimal = λ c. between 48 57 c;
}

-- "1,234.5%", " 2024-1-31", "yes", "12a" and blanks.
value_type-kinds :
    map (value_type ascii (λ s. s)) (
      (49 ∷ 44 ∷ 50 ∷ 51 ∷ 52 ∷ 46 ∷ 53 ∷ 37 ∷ [])
      ∷ (32 ∷ 50 ∷ 48 ∷ 50 ∷ 52 ∷ 45 ∷ 49 ∷ 45 ∷ 51 ∷ 49 ∷ [])
      ∷ (121 ∷ 101 ∷ 115 ∷ [])
      ∷ (49 ∷ 50 ∷ 97 ∷ [])
      ∷ (32 ∷ 32 ∷ [])
      ∷ [])
    ≡ number ∷ date ∷ boolean ∷ text ∷ empty_value ∷ []
unfolding value_type
value_type-kinds = refl

-- "表 2：" begins a caption; "table" alone does not.
looks_like_new_table_caption-table :
    map
      (looks_like_new_table_caption ascii (λ s. s))
      ((0x8868 ∷ 32 ∷ 50 ∷ 0xff1a ∷ []) ∷ (116 ∷ 97 ∷ 98 ∷ 108 ∷ 101 ∷ []) ∷ [])
    ≡ true ∷ false ∷ []
unfolding looks_like_new_table_caption
looks_like_new_table_caption-table = refl

abbrev thousandths : Floats ℕ
thousandths = record {
  leb = leb;
  plus = λ x y. x + y;
  minus = λ x y. x - y;
  divide = λ x y. 1000 * x / y;
  of_nat = λ n. 1000 * n;
  round4 = λ x. x;
}

abbrev thresholds : Thresholds ℕ
thresholds = record {
  bottom_zone_start = 780;
  top_zone_end = 220;
  horizontal_overlap_min = 940;
  header_similarity_min = 900;
  headerless_type_match_min = 800;
  most_headerless = 990;
}

-- A table of one column on a page, with its header and rows.
abbrev fragment : ℕ → ℕ → ℕ → List ℕ → List (List (List ℕ)) → PdfBlock ℕ
fragment page top bottom header rows = record {
  block_id = "t";
  block_type = table;
  page_start = page;
  page_end = page;
  bboxes =
      record {
        page_no = page;
        x0 = 100;
        top = top;
        x1 = 900;
        bottom = bottom;
        page_width = 1000;
        page_height = 1000;
      }
      ∷ [];
  content = [];
  table_headers = header ∷ [];
  table_rows = rows;
  table_row_pages = map (λ r. page) rows;
  preceding_text = [];
  cross_page = false;
  continuation_pages = none;
  header_mode = "";
  merge_confidence = none;
  source_table_ids = none;
}

-- The second fragment has no header of its own: its first row is a number, as those of the first.
abbrev fragments : List (PdfBlock ℕ)
fragments =
    fragment 2 100 200 (53 ∷ []) (((54 ∷ []) ∷ []) ∷ [])
    ∷ fragment 1 700 900 (110 ∷ []) (((52 ∷ []) ∷ []) ∷ [])
    ∷ []

merge-fragments :
    map {B = List (List (List ℕ)) × List ℕ}
      (λ (b : PdfBlock ℕ). (b.table_rows, b.table_row_pages))
      (merge thousandths thresholds ascii (λ s. s) (λ c. true) (λ a b. 0) fragments)
    ≡ (((52 ∷ []) ∷ []) ∷ ((53 ∷ []) ∷ []) ∷ ((54 ∷ []) ∷ []) ∷ [], 1 ∷ 2 ∷ 2 ∷ []) ∷ []
unfolding merge value_type sort insert looks_like_new_table_caption
merge-fragments = refl

merge_lem_example :
    let out = merge thousandths thresholds ascii (λ s. s) (λ c. true) (λ a b. 0) fragments in
    let sorted =
      sort (reads_before thousandths thresholds ascii (λ s. s) (λ c. true) (λ a b. 0)) fragments in
    Restored sorted (all_rows out)
    × All
        (λ c. Any (Carries thousandths thresholds ascii (λ s. s) (λ c. true) (λ a b. 0) c) out)
        sorted
    × All Aligned out
    × (other_blocks out ≡ other_blocks sorted)
merge_lem_example =
    merge_lem thousandths thresholds ascii (λ s. s) (λ c. true) (λ a b. 0) fragments
      (refl, (refl, tt))
