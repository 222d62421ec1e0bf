-- ===== src/Tables/Rows.antt =====
-- What the merge of tables keeps.
use flavor_rag.Prelude.{
  ℕ, List, Bool, true, false, if◌then◌else◌, ◌&&◌, not, ◌≡◌, inl, inr, [], ◌∷◌, ◌++◌, append_assoc,
  append_nil, length, length-append, map, filter, concat, All, arith, Bool-cases, refl, sym, ◌∙◌,
  ap, subst, All-append, filter-append,
}
use flavor_rag.Prelude.Sort.{sort, All-sort}
use flavor_rag.Chunker.Chars.{CharTests}
use flavor_rag.Tables.Blocks.{PdfBlock, is_table}
use flavor_rag.Tables.Merger.{
  Floats, Thresholds, Continuation, apart, repeated, headerless, continuation_mode, merge_pair,
  join_candidate, add_block, add_blocks, reads_before, merge,
}

-- The first list can be had from the second by leaving items out.
pub data Sublist {A : Type 0} : List A → List A → Type 0 where
  done : Sublist [] []
  keep : {x : A} {xs ys : List A} → Sublist xs ys → Sublist (x ∷ xs) (x ∷ ys)
  skip : {x : A} {xs ys : List A} → Sublist xs ys → Sublist xs (x ∷ ys)

-- The rows of a table, each with the number of its page.
abbrev pub zip_rows : List (List (List ℕ)) → List ℕ → List (List (List ℕ) × ℕ)
zip_rows [] pages = []
zip_rows (row ∷ rows) [] = []
zip_rows (row ∷ rows) (p ∷ pages) = (row, p) ∷ zip_rows rows pages

module _ {F : Type 0} where
  abbrev pub rows_of : PdfBlock F → List (List (List ℕ) × ℕ)
  rows_of b = zip_rows b.table_rows b.table_row_pages

  abbrev pub all_rows : List (PdfBlock F) → List (List (List ℕ) × ℕ)
  all_rows blocks = concat (map rows_of blocks)

  -- Every row has a page.
  abbrev pub Aligned : PdfBlock F → Type 0
  Aligned b = length b.table_rows ≡ length b.table_row_pages

  abbrev pub other_blocks : List (PdfBlock F) → List (PdfBlock F)
  other_blocks blocks = filter (λ (b : PdfBlock F). not (is_table b.block_type)) blocks

Sublist-refl : {A : Type 0} (xs : List A) → Sublist xs xs
Sublist-refl [] = done
Sublist-refl (x ∷ xs) = keep (Sublist-refl xs)

Sublist-trans : {A : Type 0} {xs ys zs : List A} → Sublist xs ys → Sublist ys zs → Sublist xs zs
Sublist-trans s done = s
Sublist-trans s (skip t) = skip (Sublist-trans s t)
Sublist-trans (keep s) (keep t) = keep (Sublist-trans s t)
Sublist-trans (skip s) (keep t) = skip (Sublist-trans s t)

Sublist-append :
    {A : Type 0} {xs ys us vs : List A}
    → Sublist xs ys
    → Sublist us vs
    → Sublist (xs ++ us) (ys ++ vs)
Sublist-append done t = t
Sublist-append (keep s) t = keep (Sublist-append s t)
Sublist-append (skip s) t = skip (Sublist-append s t)

pub zip_rows-append :
    (rows more : List (List (List ℕ))) (pages others : List ℕ)
    → length rows ≡ length pages
    → zip_rows (rows ++ more) (pages ++ others) ≡ zip_rows rows pages ++ zip_rows more others
zip_rows-append [] more [] others h = refl
zip_rows-append [] more (p ∷ pages) others h = absurd (omega (arith, h))
zip_rows-append (r ∷ rows) more [] others h = absurd (omega (arith, h))
zip_rows-append (r ∷ rows) more (p ∷ pages) others h =
    ap (◌∷◌ (r, p)) (zip_rows-append rows more pages others (omega (arith, h)))

module _ {F : Type 0} (floats : Floats F) (limits : Thresholds F) (chars : CharTests)
    (casefold : List ℕ → List ℕ) (is_word : ℕ → Bool) (similarity : List ℕ → List ℕ → F) where
  -- The rows of the blocks stand, in order, in the rows of the output; all rows have pages; and the
  -- blocks that are no tables are the same.
  abbrev pub Keeps : List (PdfBlock F) → List (PdfBlock F) → Type 0
  Keeps blocks out =
      Sublist (all_rows blocks) (all_rows out)
      × All Aligned out
      × (other_blocks out ≡ other_blocks blocks)

  merge_pair-Keeps :
      (b c : PdfBlock F) (is_headerless : Bool) (confidence : F)
      → is_table b.block_type ≡ true
      → is_table c.block_type ≡ true
      → Aligned b
      → Aligned c
      → Keeps (b ∷ c ∷ []) (
          merge_pair floats limits chars casefold is_word similarity b c is_headerless confidence
          ∷ [])
  unfolding merge_pair
  merge_pair-Keeps b c true confidence t u h g =
      let rows =
        zip_rows-append b.table_rows (c.table_headers ∷ c.table_rows) b.table_row_pages
          (c.page_start ∷ c.table_row_pages) h in
      (
        rw (rows, append_assoc (rows_of b) ((c.table_headers, c.page_start) ∷ rows_of c) [])
            (Sublist-append (Sublist-refl (rows_of b)) (skip (Sublist-refl (rows_of c ++ [])))),
        (
          omega (
            arith,
            length-append b.table_rows (c.table_headers ∷ c.table_rows),
            length-append b.table_row_pages (c.page_start ∷ c.table_row_pages),
            h,
            g,
          ),
          tt,
        ),
        rw (t, u) refl,
      )
  merge_pair-Keeps b c false confidence t u h g =
      let rows = zip_rows-append b.table_rows c.table_rows b.table_row_pages c.table_row_pages h in
      (
        rw (rows, append_assoc (rows_of b) (rows_of c) [])
            (Sublist-refl (rows_of b ++ (rows_of c ++ []))),
        (
          omega (
            arith,
            length-append b.table_rows c.table_rows,
            length-append b.table_row_pages c.table_row_pages,
            h,
            g,
          ),
          tt,
        ),
        rw (t, u) refl,
      )

  Keeps-refl : (blocks : List (PdfBlock F)) → All Aligned blocks → Keeps blocks blocks
  Keeps-refl blocks h = (Sublist-refl (all_rows blocks), h, refl)

  join_candidate-Keeps :
      (b c : PdfBlock F)
      → Aligned b
      → Aligned c
      → Keeps (b ∷ c ∷ []) (join_candidate floats limits chars casefold is_word similarity b c)
  unfolding join_candidate
  join_candidate-Keeps b c h g =
      elim (Bool-cases (is_table b.block_type && is_table c.block_type)) [
        | inr e ↦ rw e (Keeps-refl (b ∷ c ∷ []) (h, (g, tt)))
        | inl e ↦
            by_mode (continuation_mode floats limits chars casefold is_word similarity b c) refl
              (ground (arith, e)) (ground (arith, e))
      ]
    where
      by_mode :
          (m : Continuation F)
          → continuation_mode floats limits chars casefold is_word similarity b c ≡ m
          → is_table b.block_type ≡ true
          → is_table c.block_type ≡ true
          → Keeps (b ∷ c ∷ []) (join_candidate floats limits chars casefold is_word similarity b c)
      by_mode apart q t u =
          let e : join_candidate floats limits chars casefold is_word similarity b c ≡ b ∷ c ∷ [] =
            rw (t, u, q, join_candidate) refl in
          subst (Keeps (b ∷ c ∷ [])) (sym e) (Keeps-refl (b ∷ c ∷ []) (h, (g, tt)))
      by_mode (repeated confidence) q t u =
          let e : join_candidate floats limits chars casefold is_word similarity b c
              ≡ merge_pair floats limits chars casefold is_word similarity b c false confidence
                ∷ [] =
            rw (t, u, q, join_candidate) refl in
          subst (Keeps (b ∷ c ∷ [])) (sym e) (merge_pair-Keeps b c false confidence t u h g)
      by_mode (headerless confidence) q t u =
          let e : join_candidate floats limits chars casefold is_word similarity b c
              ≡ merge_pair floats limits chars casefold is_word similarity b c true confidence
                ∷ [] =
            rw (t, u, q, join_candidate) refl in
          subst (Keeps (b ∷ c ∷ [])) (sym e) (merge_pair-Keeps b c true confidence t u h g)

  Keeps-cons :
      (b : PdfBlock F) (blocks out : List (PdfBlock F))
      → Aligned b
      → Keeps blocks out
      → Keeps (b ∷ blocks) (b ∷ out)
  Keeps-cons b blocks out h (rows, aligned, others) = (
    Sublist-append (Sublist-refl (rows_of b)) rows,
    (h, aligned),
    ap (λ r. if not (is_table b.block_type) then b ∷ r else r) others,
  )

  pub add_block-Keeps :
      (output : List (PdfBlock F)) (c : PdfBlock F)
      → All Aligned output
      → Aligned c
      → Keeps
          (output ++ c ∷ [])
          (add_block floats limits chars casefold is_word similarity output c)
  unfolding add_block
  add_block-Keeps [] c h g = Keeps-refl (c ∷ []) (g, tt)
  add_block-Keeps (b ∷ []) c h g = join_candidate-Keeps b c h.0 g
  add_block-Keeps (b ∷ d ∷ output) c h g =
      Keeps-cons b ((d ∷ output) ++ c ∷ [])
        (add_block floats limits chars casefold is_word similarity (d ∷ output) c) h.0
        (add_block-Keeps (d ∷ output) c h.1 g)

  pub all_rows-append :
      (xs ys : List (PdfBlock F)) → all_rows (xs ++ ys) ≡ all_rows xs ++ all_rows ys
  all_rows-append [] ys = refl
  all_rows-append (x ∷ xs) ys =
      ap (λ r. rows_of x ++ r) (all_rows-append xs ys)
      ∙ sym (append_assoc (rows_of x) (all_rows xs) (all_rows ys))

  -- What is kept stays kept when more blocks follow.
  Keeps-more :
      (blocks out more : List (PdfBlock F))
      → All Aligned more
      → Keeps blocks out
      → Keeps (blocks ++ more) (out ++ more)
  Keeps-more blocks out more h (rows, aligned, others) = (
    rw (all_rows-append blocks more, all_rows-append out more)
        (Sublist-append rows (Sublist-refl (all_rows more))),
    All-append Aligned out more aligned h,
    filter-append (λ (b : PdfBlock F). not (is_table b.block_type)) out more
        ∙ ap (λ r. r ++ other_blocks more) others
        ∙ sym (filter-append (λ (b : PdfBlock F). not (is_table b.block_type)) blocks more),
  )

  Keeps-trans : (xs ys zs : List (PdfBlock F)) → Keeps xs ys → Keeps ys zs → Keeps xs zs
  Keeps-trans xs ys zs (rows, x, others) (rows', aligned, others') =
      (Sublist-trans rows rows', aligned, others' ∙ others)

  add_blocks-Keeps :
      (output blocks : List (PdfBlock F))
      → All Aligned output
      → All Aligned blocks
      → Keeps
          (output ++ blocks)
          (add_blocks floats limits chars casefold is_word similarity output blocks)
  unfolding add_blocks
  add_blocks-Keeps output [] h g = rw (append_nil output) (Keeps-refl output h)
  add_blocks-Keeps output (b ∷ blocks) h g =
      let next = add_block floats limits chars casefold is_word similarity output b in
      let step = add_block-Keeps output b h g.0 in
      Keeps-trans (output ++ (b ∷ blocks)) (next ++ blocks)
        (add_blocks floats limits chars casefold is_word similarity next blocks)
        (subst (λ l. Keeps l (next ++ blocks)) (append_assoc output (b ∷ []) blocks)
          (Keeps-more (output ++ b ∷ []) next blocks g.1 step))
        (add_blocks-Keeps next blocks step.1 g.1)

  pub merge-Keeps :
      (blocks : List (PdfBlock F))
      → All Aligned blocks
      → Keeps
          (sort (reads_before floats limits chars casefold is_word similarity) blocks)
          (merge floats limits chars casefold is_word similarity blocks)
  unfolding merge
  merge-Keeps blocks h =
      let before = reads_before floats limits chars casefold is_word similarity in
      add_blocks-Keeps [] (sort before blocks) tt (All-sort before Aligned blocks h)
