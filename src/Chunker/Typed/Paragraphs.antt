-- ===== src/Chunker/Typed/Paragraphs.antt =====
-- `_chunk_paragraph` and `_find_sentence_boundary`.
use flavor_rag.Prelude.{
  is_nil, ℕ, suc, zero, List, Bool, Option, none, some, if◌then◌else◌, ◌&&◌, ◌||◌, eqb, leb, ltb,
  ◌+◌, ◌-◌, min, [], ◌∷◌, length,
}
use flavor_rag.Chunker.Chars.{CharTests, one_of, slice, is_blank, char_is}
use flavor_rag.Chunker.Fixed.{Window}
use flavor_rag.Chunker.Structure.Packing.{window}
use flavor_rag.Chunker.Typed.Patterns.{strip}
use flavor_rag.Chunker.Typed.Parts.{BlockAwareOptions, TypedChunk, plain_chunk}

-- The first of `count` positions from `i` on that passes the test.
unfoldable pub first_position : (ℕ → Bool) → ℕ → ℕ → Option ℕ
first_position p i zero = none
first_position p i (suc count) = if p i then some i else first_position p (i + 1) count

-- The end of a sentence; else what is behind a newline; else the target.
abbrev pub boundary_of : Option ℕ → Option ℕ → ℕ → ℕ
boundary_of (some i) newline target_end = i
boundary_of none (some i) target_end = i + 1
boundary_of none none target_end = target_end

-- `isupper` is `str.isupper` on one character.
module _ (chars : CharTests) (isupper : ℕ → Bool) (text : List ℕ) where
  -- A sentence ends before position `i`.
  unfoldable pub is_sentence_end : ℕ → Bool
  unfolding char_is
  is_sentence_end i =
      char_is (λ c. one_of c (0x3002 ∷ 0xff01 ∷ 0xff1f ∷ 46 ∷ 33 ∷ 63 ∷ [])) text (i - 1)
      && (leb (length text) i
          || char_is (λ c. chars.isspace c || eqb c 10) text i
          || char_is (λ c. isupper c || ltb 0x2e80 c) text i)

  unfoldable pub find_sentence_boundary : ℕ → ℕ → ℕ → ℕ
  find_sentence_boundary start target_end max_chars =
      let count = min (start + max_chars) (length text) - target_end in
      boundary_of (first_position (λ i. ltb start i && is_sentence_end i) target_end count)
        (first_position (λ i. char_is (λ c. eqb c 10) text i) target_end count) target_end

  -- Where the window that begins at `start` ends.
  unfoldable pub paragraph_end : BlockAwareOptions → ℕ → ℕ
  unfolding find_sentence_boundary
  paragraph_end options start =
      let target_end = min (start + options.target_chars) (length text) in
      let end = find_sentence_boundary start target_end options.max_chars in
      if leb end start then target_end else end

  -- The windows of the loop from `start` on, on fuel; `none` when it does not end within the fuel.
  unfoldable pub paragraph_windows : BlockAwareOptions → ℕ → ℕ → Option (List Window)
  unfolding paragraph_end
  paragraph_windows options zero start = none
  paragraph_windows options (suc fuel) start =
      let end = paragraph_end options start in
      let rest = paragraph_windows options fuel end in
      if leb (length text) start
      then some []
      else elim rest [ none ↦ none | some ws ↦ some (window start end ∷ ws) ]

  -- The contents that are not empty, numbered.
  unfoldable pub paragraph_records : ℕ → List Window → List TypedChunk
  unfolding strip
  paragraph_records index [] = []
  paragraph_records index (w ∷ ws) =
      let content = strip chars (slice w.start w.end text) in
      if is_nil content
      then paragraph_records index ws
      else plain_chunk content index ∷ paragraph_records (index + 1) ws

  unfoldable pub chunk_paragraph : BlockAwareOptions → Option (List TypedChunk)
  unfolding paragraph_windows paragraph_records
  chunk_paragraph options =
      if is_blank chars text
      then some []
      else if leb (length text) options.max_chars
      then some (plain_chunk text 0 ∷ [])
      else elim (paragraph_windows options (length text + 1) 0) [
        | none ↦ none
        | some ws ↦ some (paragraph_records 0 ws)
      ]
