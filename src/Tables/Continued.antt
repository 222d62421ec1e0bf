-- ===== src/Tables/Continued.antt =====
-- What becomes of the rows and of the headers of the tables that CrossPageTableMerger joins.
use flavor_rag.Prelude.{
  ℕ, List, Bool, false, ◌≡◌, inl, inr, [], ◌∷◌, ◌++◌, append_assoc, append_nil, All, All-append,
  refl, sym, ◌∙◌, ap, subst,
}
use flavor_rag.Prelude.Sort.{sort, All-sort}
use flavor_rag.Chunker.Chars.{CharTests}
use flavor_rag.Tables.Blocks.{PdfBlock}
use flavor_rag.Tables.Merger.{Floats, Thresholds, add_block, add_blocks, reads_before, merge}
use flavor_rag.Tables.Rows.{rows_of, all_rows, Aligned, other_blocks, add_block-Keeps, merge-Keeps}
use flavor_rag.Tables.Headers.{
  Any, fragment, Restored, no_rows, more_rows, Carries, Step, join_candidate-Step,
}

module _ {F : Type 0} (floats : Floats F) (limits : Thresholds F) (chars : CharTests)
    (casefold : List ℕ → List ℕ) (is_word : ℕ → Bool) (similarity : List ℕ → List ℕ → F) where
  Step-cons :
      (b c : PdfBlock F) (xs ys : List (PdfBlock F))
      → Step floats limits chars casefold is_word similarity xs c ys
      → Step floats limits chars casefold is_word similarity (b ∷ xs) c (b ∷ ys)
  Step-cons b c xs ys s = record {
    with_header = s.with_header;
    rows =
        ap (λ r. rows_of b ++ r) s.rows
        ∙ sym (append_assoc (rows_of b) (all_rows xs) (fragment s.with_header c));
    kept = λ d m. elim m [ inl p ↦ inl p | inr m' ↦ inr (s.kept d m') ];
    added = inr s.added;
  }

  add_block-Step :
      (output : List (PdfBlock F)) (c : PdfBlock F)
      → All Aligned output
      → Step floats limits chars casefold is_word similarity output c
          (add_block floats limits chars casefold is_word similarity output c)
  unfolding add_block
  add_block-Step [] c h = record {
    with_header = false;
    rows = append_nil (rows_of c);
    kept = λ d m. absurd m;
    added = inl (refl, inl refl);
  }
  add_block-Step (b ∷ []) c h =
      join_candidate-Step floats limits chars casefold is_word similarity b c h.0
  add_block-Step (b ∷ d ∷ output) c h =
      Step-cons b c (d ∷ output)
        (add_block floats limits chars casefold is_word similarity (d ∷ output) c)
        (add_block-Step (d ∷ output) c h.1)

  All-carried :
      (done output next : List (PdfBlock F))
      → ((d : PdfBlock F)
          → Any (Carries floats limits chars casefold is_word similarity d) output
          → Any (Carries floats limits chars casefold is_word similarity d) next)
      → All (λ d. Any (Carries floats limits chars casefold is_word similarity d) output) done
      → All (λ d. Any (Carries floats limits chars casefold is_word similarity d) next) done
  All-carried [] output next f h = tt
  All-carried (d ∷ done) output next f h = (f d h.0, All-carried done output next f h.1)

  add_blocks-carried :
      (done output blocks : List (PdfBlock F))
      → All Aligned output
      → All Aligned blocks
      → Restored done (all_rows output)
      → All (λ d. Any (Carries floats limits chars casefold is_word similarity d) output) done
      → Restored
          (done ++ blocks)
          (all_rows (add_blocks floats limits chars casefold is_word similarity output blocks))
        × All
            (λ d.
              Any
                (Carries floats limits chars casefold is_word similarity d)
                (add_blocks floats limits chars casefold is_word similarity output blocks))
            (done ++ blocks)
  unfolding add_blocks
  add_blocks-carried done output [] h g r all = rw (append_nil done) (r, all)
  add_blocks-carried done output (c ∷ blocks) h g r all =
      let next = add_block floats limits chars casefold is_word similarity output c in
      let s = add_block-Step output c h in
      let r' : Restored (done ++ c ∷ []) (all_rows next) =
        subst (Restored (done ++ c ∷ [])) (sym s.rows) (more_rows r s.with_header c) in
      let all' : All (λ d. Any (Carries floats limits chars casefold is_word similarity d) next)
          (done ++ c ∷ []) =
        All-append (λ d. Any (Carries floats limits chars casefold is_word similarity d) next) done
          (c ∷ []) (All-carried done output next s.kept all) (s.added, tt) in
      rw (sym (append_assoc done (c ∷ []) blocks)) (
        add_blocks-carried (done ++ c ∷ []) next blocks
          (add_block-Keeps floats limits chars casefold is_word similarity output c h g.0).1 g.1 r'
          all')

  -- When every row of the tables has a page: the blocks are put in the order of the pages. The rows of
  -- the output are the rows of these blocks with their pages, block by block in order, with nothing
  -- left out and nothing else but the headers of some of the blocks, each as the first row on the
  -- first page of its block. The header of every table is in a table of the output: as its header, or
  -- replaced by a header that is at least as similar as the threshold asks, or as a row. Every row of
  -- the output has a page; and the blocks that are no tables are the same in the same order.
  pub merge_lem :
      (blocks : List (PdfBlock F))
      → All Aligned blocks
      → Restored
          (sort (reads_before floats limits chars casefold is_word similarity) blocks)
          (all_rows (merge floats limits chars casefold is_word similarity blocks))
        × All
            (λ c.
              Any
                (Carries floats limits chars casefold is_word similarity c)
                (merge floats limits chars casefold is_word similarity blocks))
            (sort (reads_before floats limits chars casefold is_word similarity) blocks)
        × All Aligned (merge floats limits chars casefold is_word similarity blocks)
        × (other_blocks (merge floats limits chars casefold is_word similarity blocks)
            ≡ other_blocks
                (sort (reads_before floats limits chars casefold is_word similarity) blocks))
  unfolding merge
  merge_lem blocks h =
      let sorted = sort (reads_before floats limits chars casefold is_word similarity) blocks in
      let (rows, headers) =
        add_blocks-carried [] [] sorted tt
          (All-sort (reads_before floats limits chars casefold is_word similarity) Aligned blocks h)
          no_rows tt in
      let (kept, aligned, others) =
        merge-Keeps floats limits chars casefold is_word similarity blocks h in
      (rows, headers, aligned, others)
