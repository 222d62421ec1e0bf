-- ===== src/Chunker/Structure/Loss.antt =====
-- What `_coalesce_trailing_blanks` does to a document of two blocks.
use flavor_rag.Prelude.{
  ℕ, suc, zero, List, Bool, some, true, ◌+◌, ◌-◌, ◌≤◌, ◌<◌, ◌≡◌, inl, inr, [], ◌∷◌, length,
  get_elem?, take, drop, all, arith, Bool-cases, refl, subst,
}
use flavor_rag.Chunker.Chars.{CharTests, one_of, slice}
use flavor_rag.Chunker.Structure.Lines.{lines_from}
use flavor_rag.Chunker.Structure.Blocks.{
  Block, outside, segment_lines, flush, is_all_blank, coalesce_from, coalesce_trailing_blanks,
  segment_to_blocks,
}
use flavor_rag.Chunker.Structure.Packing.{
  TextBoundaryOptions, absorb, pack_ranges, merge_last, pack_blocks_to_chunks, materialize_from,
  chunk_unified,
}
use flavor_rag.Chunker.Structure.Segments.{InBlocks, Full, segment_lines_lem}

all-take :
    (p : ℕ → Bool) (n : ℕ) (text : List ℕ)
    → ((k c : ℕ) → k < n → get_elem? text k ≡ some c → p c ≡ true)
    → all p (take n text) ≡ true
all-take p zero text h = refl
all-take p (suc n) [] h = refl
all-take p (suc n) (c ∷ text) h =
    rw (h 0 c (omega arith) refl, all-take p n text (λ k d lt at. h (suc k) d (omega arith) at))
      refl

all-drop :
    (p : ℕ → Bool) (s n : ℕ) (text : List ℕ)
    → ((k c : ℕ) → s ≤ k → k < s + n → get_elem? text k ≡ some c → p c ≡ true)
    → all p (take n (drop s text)) ≡ true
all-drop p zero n text h = all-take p n text (λ k c lt at. h k c (omega arith) (omega arith) at)
all-drop p (suc s) zero [] h = refl
all-drop p (suc s) (suc n) [] h = refl
all-drop p (suc s) n (c ∷ text) h =
    all-drop p s n text (λ k d le lt at. h (suc k) d (omega arith) (omega (arith, lt)) at)

module _ (chars : CharTests) (newline : chars.isspace 10 ≡ true) (text : List ℕ) where
  -- The whitespace of the text is spaces, tabs and ends of lines.
  abbrev pub PlainSpace : Type 0
  PlainSpace =
      (q c : ℕ)
      → get_elem? text q ≡ some c
      → chars.isspace c ≡ true
      → one_of c (32 ∷ 9 ∷ 13 ∷ 10 ∷ []) ≡ true

  -- The blocks that the scan of the lines finds.
  abbrev pub found_blocks : List Block
  found_blocks =
      flush chars (segment_lines chars (record { blocks = []; mode = outside }) (lines_from 0 text))
        (length text)

  -- Between two blocks that follow one another nothing is visible.
  gap_blank :
      (b0 b1 : Block)
      → PlainSpace
      → Full chars text (length text) (b0 ∷ b1 ∷ [])
      → is_all_blank chars text b0.end b1.start ≡ true
  gap_blank b0 b1 plain ((x, y, (z, w, v)), cover) =
      all-drop _ b0.end (b1.start - b0.end) text (λ k c le lt at.
        elim (Bool-cases (chars.isspace c)) [
          | inl space ↦ plain k c at space
          | inr visible ↦ absurd (
              outside_both k le (omega (arith, lt, z))
                (cover k (omega (arith, lt, z, w, v)) (c, at, visible)))
        ])
    where
      outside_both : (k : ℕ) → b0.end ≤ k → k < b1.start → InBlocks k (b0 ∷ b1 ∷ []) → ⊥
      outside_both k le lt (inl (a, b)) = omega (arith, b, le)
      outside_both k le lt (inr (inl (a, b))) = omega (arith, a, lt)
      outside_both k le lt (inr (inr h)) = h

  -- Of a document with two blocks, as a heading and its paragraph, the chunker keeps the first one only:
  -- its single chunk is the text from the start of the first block to the start of the second.
  pub chunk_unified-two_blocks :
      (options : TextBoundaryOptions) (b0 b1 : Block)
      → PlainSpace
      → found_blocks ≡ b0 ∷ b1 ∷ []
      → chunk_unified chars options text
        ≡ record { content = slice b0.start b1.start text; chunk_index = 0 } ∷ []
  unfolding chunk_unified segment_to_blocks coalesce_trailing_blanks coalesce_from
      pack_blocks_to_chunks pack_ranges absorb merge_last materialize_from
  chunk_unified-two_blocks options b0 b1 plain e =
      let blank =
        gap_blank b0 b1 plain
          (subst (Full chars text (length text)) e (segment_lines_lem chars text newline)) in
      rw (e, blank) refl
