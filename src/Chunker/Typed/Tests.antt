-- ===== src/Chunker/Typed/Tests.antt =====
-- Runs of the block-aware chunker on short texts.
use flavor_rag.Prelude.{ℕ, List, Bool, some, true, ◌||◌, ◌≡◌, [], ◌∷◌, map, All, arith, refl}
use flavor_rag.Chunker.Chars.{CharTests, between, one_of}
use flavor_rag.Chunker.Structure.Lines.{lines_from}
use flavor_rag.Chunker.Structure.Blocks.{block, heading, para, table, list}
use flavor_rag.Chunker.Structure.Segments.{Full}
use flavor_rag.Chunker.Typed.Patterns.{join}
use flavor_rag.Chunker.Typed.Parsing.{parse_lines, parse_blocks}
use flavor_rag.Chunker.Typed.Parts.{BlockAwareOptions, TypedChunk, plain_chunk, chunk_code}
use flavor_rag.Chunker.Typed.Paragraphs.{chunk_paragraph}
use flavor_rag.Chunker.Typed.Merging.{pack_chunks}
use flavor_rag.Chunker.Typed.Coverage.{parse_blocks_lem}
use flavor_rag.Chunker.Typed.Groups.{Packed, pack_chunks_lem}
use flavor_rag.Chunker.Typed.CodeLines.{HasLines, join-chunk_code}
use flavor_rag.Chunker.Typed.Sentences.{Fits, contents, visible, chunk_paragraph_lem}

abbrev ascii : CharTests
ascii = record {
  isspace = λ c. one_of c (32 ∷ 9 ∷ 10 ∷ 13 ∷ []);
  isalpha = λ c. between 65 90 c || between 97 122 c;
  isdigit = λ c. between 48 57 c;
  isdecimal = λ c. between 48 57 c;
}

abbrev ascii_upper : ℕ → Bool
ascii_upper c = between 65 90 c

abbrev tiny : BlockAwareOptions
tiny = record {
  table_max_rows = 1;
  code_max_lines = 1;
  heading_as_path = true;
  list_max_items = 2;
  target_chars = 2;
  max_chars = 3;
  min_chars = 3;
}

-- "# H", "a", "|a|b|", "- x", a blank line, "- y" and "z".
abbrev mixed : List ℕ
mixed =
    35 ∷ 32 ∷ 72 ∷ 10 ∷ 97 ∷ 10 ∷ 124 ∷ 97 ∷ 124 ∷ 98 ∷ 124 ∷ 10 ∷ 45 ∷ 32 ∷ 120 ∷ 10 ∷ 10 ∷ 45 ∷ 32
    ∷ 121 ∷ 10 ∷ 122 ∷ []

parse_blocks-mixed :
    parse_blocks ascii mixed
    ≡ block heading 0 4
      ∷ block para 4 6
      ∷ block table 6 12
      ∷ block list 12 21
      ∷ block para 21 22
      ∷ []
unfolding parse_blocks lines_from parse_lines
parse_blocks-mixed = refl

parse_blocks_lem_example : Full ascii mixed 22 (parse_blocks ascii mixed)
parse_blocks_lem_example = parse_blocks_lem ascii mixed refl

-- "A. Bc d"
abbrev sentence : List ℕ
sentence = 65 ∷ 46 ∷ 32 ∷ 66 ∷ 99 ∷ 32 ∷ 100 ∷ []

chunk_paragraph_lem_example :
    (out : List TypedChunk) × (chunk_paragraph ascii ascii_upper sentence tiny ≡ some out)
    × (visible ascii (contents out) ≡ visible ascii sentence)
    × All (Fits tiny) out
chunk_paragraph_lem_example = chunk_paragraph_lem ascii ascii_upper sentence tiny (omega arith)

-- Three lines.
abbrev three_lines : List ℕ
three_lines = 97 ∷ 10 ∷ 98 ∷ 10 ∷ 99 ∷ []

join-chunk_code_example :
    (out : List TypedChunk) × (chunk_code ascii tiny three_lines ≡ some out)
    × (join (10 ∷ []) (map (λ (r : TypedChunk). r.content) out) ≡ three_lines)
    × All (HasLines 1) out
join-chunk_code_example = join-chunk_code ascii tiny three_lines (omega arith)

-- Two small chunks, which are merged, and a large one.
abbrev small_and_large : List TypedChunk
small_and_large =
    plain_chunk (97 ∷ []) 0 ∷ plain_chunk (98 ∷ 98 ∷ []) 1 ∷ plain_chunk sentence 2 ∷ []

pack_chunks_lem_example : Packed tiny small_and_large (pack_chunks tiny small_and_large)
pack_chunks_lem_example = pack_chunks_lem tiny small_and_large
