-- ===== src/Chunker/Structure/Tests.antt =====
-- Runs of the structure-aware chunker on short texts.
use flavor_rag.Prelude.{ℕ, List, ◌||◌, ◌≡◌, [], ◌∷◌, refl, arith}
use flavor_rag.Chunker.Chars.{CharTests, between, one_of}
use flavor_rag.Chunker.Structure.Lines.{lines_from}
use flavor_rag.Chunker.Structure.Blocks.{
  block, heading, para, segment_lines, segment_line, read_line,
}
use flavor_rag.Chunker.Structure.Packing.{TextBoundaryOptions, chunk_unified}
use flavor_rag.Chunker.Structure.Loss.{PlainSpace, found_blocks, chunk_unified-two_blocks}

abbrev spaces : CharTests
spaces = record {
  isspace = λ c. one_of c (32 ∷ 9 ∷ 10 ∷ 13 ∷ []);
  isalpha = λ c. between 65 90 c || between 97 122 c;
  isdigit = λ c. between 48 57 c;
  isdecimal = λ c. between 48 57 c;
}

-- "# H", a blank line, and "ab".
abbrev titled : List ℕ
titled = 35 ∷ 32 ∷ 72 ∷ 10 ∷ 10 ∷ 97 ∷ 98 ∷ []

abbrev boundaries : TextBoundaryOptions
boundaries = record { target_chars = 1400; overlap_chars = 0; max_chars = 1800; min_chars = 600 }

found_blocks-titled : found_blocks spaces refl titled ≡ block heading 0 4 ∷ block para 5 7 ∷ []
unfolding lines_from segment_lines segment_line read_line
found_blocks-titled = refl

titled-PlainSpace : PlainSpace spaces refl titled
titled-PlainSpace q c at space = grind (arith, space)

chunk_unified-two_blocks_example :
    chunk_unified spaces boundaries titled
    ≡ record { content = 35 ∷ 32 ∷ 72 ∷ 10 ∷ 10 ∷ []; chunk_index = 0 } ∷ []
chunk_unified-two_blocks_example =
    chunk_unified-two_blocks spaces refl titled boundaries (block heading 0 4) (block para 5 7)
      titled-PlainSpace found_blocks-titled
