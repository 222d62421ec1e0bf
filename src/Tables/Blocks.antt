-- ===== src/Tables/Blocks.antt =====
-- flavorag-server/app/ingestion/pdf/models.py: the blocks of a PDF, as far as tables are concerned. `F`
-- stands for floats.
use flavor_rag.Prelude.{ℕ, String, List, Bool, Option, none, some, [], ◌∷◌, true, false}

pub data PdfBlockType : Type 0 where
  heading paragraph list table image formula header_footer : PdfBlockType

pub record PdfBoundingBox (F : Type 0) : Type 0 where
  pub page_no : ℕ
  pub x0 : F
  pub top : F
  pub x1 : F
  pub bottom : F
  pub page_width : F
  pub page_height : F

-- A cell is a text of code points. `continuation_pages` and `source_table_ids` are absent in the metadata
-- until tables are merged.
pub record PdfBlock (F : Type 0) : Type 0 where
  pub block_id : String
  pub block_type : PdfBlockType
  pub page_start : ℕ
  pub page_end : ℕ
  pub bboxes : List (PdfBoundingBox F)
  pub content : List ℕ
  pub table_headers : List (List ℕ)
  pub table_rows : List (List (List ℕ))
  pub table_row_pages : List ℕ
  pub preceding_text : List ℕ
  pub cross_page : Bool
  pub continuation_pages : Option (List ℕ)
  pub header_mode : String
  pub merge_confidence : Option F
  pub source_table_ids : Option (List String)

abbrev pub is_table : PdfBlockType → Bool
is_table table = true
is_table _ = false

module _ {F : Type 0} where
  abbrev pub first_of : List (PdfBoundingBox F) → Option (PdfBoundingBox F)
  first_of [] = none
  first_of (b ∷ boxes) = some b

  abbrev pub last_of : List (PdfBoundingBox F) → Option (PdfBoundingBox F)
  last_of [] = none
  last_of (b ∷ []) = some b
  last_of (b ∷ c ∷ boxes) = last_of (c ∷ boxes)

  unfoldable pub first_bbox : PdfBlock F → Option (PdfBoundingBox F)
  first_bbox b = first_of b.bboxes

  unfoldable pub last_bbox : PdfBlock F → Option (PdfBoundingBox F)
  last_bbox b = last_of b.bboxes
