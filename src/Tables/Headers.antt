-- ===== src/Tables/Headers.antt =====
-- What a step of CrossPageTableMerger does with the rows and the header of the block that it takes.
use flavor_rag.Prelude.{
  ℕ, List, Bool, true, false, ◌&&◌, ◌≡◌, ◌⊎◌, inl, inr, [], ◌∷◌, ◌++◌, append_nil, Member,
  Member-append_left, Member-append_right, arith, Bool-cases, refl, sym, ◌∙◌, ap, subst,
}
use flavor_rag.Chunker.Chars.{CharTests}
use flavor_rag.Tables.Blocks.{PdfBlock, PdfBoundingBox, is_table}
use flavor_rag.Tables.Merger.{
  Floats, Thresholds, Continuation, apart, repeated, headerless, continuation_of, continuation_mode,
  row_similarity, merge_pair, join_candidate,
}
use flavor_rag.Tables.Rows.{zip_rows-append, rows_of, all_rows, Aligned}

abbrev pub Any : {A : Type 0} → (A → Type 0) → List A → Type 0
Any P [] = ⊥
Any P (x ∷ xs) = P x ⊎ Any P xs

module _ {F : Type 0} where
  -- The rows of a block, with its header as the first of them or without.
  abbrev pub fragment : Bool → PdfBlock F → List (List (List ℕ) × ℕ)
  fragment true c = (c.table_headers, c.page_start) ∷ rows_of c
  fragment false c = rows_of c

  -- The rows are those of the blocks, one block after the other, with the headers of some of them.
  pub data Restored : List (PdfBlock F) → List (List (List ℕ) × ℕ) → Type 0 where
    no_rows : Restored [] []
    more_rows :
        {blocks : List (PdfBlock F)} {rows : List (List (List ℕ) × ℕ)}
        → Restored blocks rows
        → (with_header : Bool) (c : PdfBlock F)
        → Restored (blocks ++ c ∷ []) (rows ++ fragment with_header c)

module _ {F : Type 0} (floats : Floats F) (limits : Thresholds F) (chars : CharTests)
    (casefold : List ℕ → List ℕ) (is_word : ℕ → Bool) (similarity : List ℕ → List ℕ → F) where
  -- The block o has the header of the block c: as its own header, in a header that is similar enough, or
  -- as a row on the first page of c.
  abbrev pub Carries : PdfBlock F → PdfBlock F → Type 0
  Carries c o =
      (is_table o.block_type ≡ is_table c.block_type)
      × ((o.table_headers ≡ c.table_headers)
          ⊎ (floats.leb limits.header_similarity_min (
                row_similarity floats limits chars casefold is_word similarity o.table_headers
                  c.table_headers)
              ≡ true)
          ⊎ Member (c.table_headers, c.page_start) (rows_of o))

  -- What a step from the output xs to the output ys does with the block c.
  pub record Step (xs : List (PdfBlock F)) (c : PdfBlock F) (ys : List (PdfBlock F)) : Type 0 where
    pub with_header : Bool
    pub rows : all_rows ys ≡ all_rows xs ++ fragment with_header c
    pub kept : (d : PdfBlock F) → Any (Carries d) xs → Any (Carries d) ys
    pub added : Any (Carries c) ys

  abbrev is_repeated : Continuation F → Bool
  is_repeated apart = false
  is_repeated (repeated confidence) = true
  is_repeated (headerless confidence) = false

  continuation_of-similar :
      (p n : PdfBoundingBox F) (b c : PdfBlock F)
      → floats.leb limits.header_similarity_min (
          row_similarity floats limits chars casefold is_word similarity b.table_headers
            c.table_headers)
        ≡ false
      → is_repeated (continuation_of floats limits chars casefold is_word similarity p n b c)
        ≡ false
  unfolding continuation_of
  continuation_of-similar p n b c e = ground (arith, e)

  continuation_mode-similar :
      (b c : PdfBlock F)
      → floats.leb limits.header_similarity_min (
          row_similarity floats limits chars casefold is_word similarity b.table_headers
            c.table_headers)
        ≡ false
      → is_repeated (continuation_mode floats limits chars casefold is_word similarity b c) ≡ false
  unfolding continuation_mode
  continuation_mode-similar b c e = ground (
    arith,
    e,
    λ (p : PdfBoundingBox F). λ (n : PdfBoundingBox F). continuation_of-similar p n b c e,
  )

  merge_pair-rows :
      (b c : PdfBlock F) (is_headerless : Bool) (confidence : F)
      → Aligned b
      → rows_of
          (merge_pair floats limits chars casefold is_word similarity b c is_headerless confidence)
        ≡ rows_of b ++ fragment is_headerless c
  unfolding merge_pair
  merge_pair-rows b c true confidence h =
      zip_rows-append b.table_rows (c.table_headers ∷ c.table_rows) b.table_row_pages
        (c.page_start ∷ c.table_row_pages) h
  merge_pair-rows b c false confidence h =
      zip_rows-append b.table_rows c.table_rows b.table_row_pages c.table_row_pages h

  merge_pair-carries :
      (b c d : PdfBlock F) (is_headerless : Bool) (confidence : F)
      → Aligned b
      → Carries d b
      → Carries d
          (merge_pair floats limits chars casefold is_word similarity b c is_headerless confidence)
  unfolding merge_pair
  merge_pair-carries b c d is_headerless confidence h (t, inl e) = (t, inl e)
  merge_pair-carries b c d is_headerless confidence h (t, inr (inl s)) = (t, inr (inl s))
  merge_pair-carries b c d is_headerless confidence h (t, inr (inr m)) = (
    t,
    inr (
        inr (
          subst (λ rows. Member (d.table_headers, d.page_start) rows)
            (sym (merge_pair-rows b c is_headerless confidence h))
            (Member-append_left (d.table_headers, d.page_start) (rows_of b)
              (fragment is_headerless c) m))),
  )

  -- A merge is a step, when the header of the candidate is similar or becomes a row.
  merge_pair-Step :
      (b c : PdfBlock F) (is_headerless : Bool) (confidence : F)
      → Aligned b
      → Carries c
          (merge_pair floats limits chars casefold is_word similarity b c is_headerless confidence)
      → Step (b ∷ []) c (
          merge_pair floats limits chars casefold is_word similarity b c is_headerless confidence
          ∷ [])
  merge_pair-Step b c is_headerless confidence h carries = record {
    with_header = is_headerless;
    rows =
        rw (append_nil (rows_of b)) (append_nil _ ∙ merge_pair-rows b c is_headerless confidence h);
    kept = λ d m. elim m [
      | inl p ↦ inl (merge_pair-carries b c d is_headerless confidence h p)
      | inr none ↦ absurd none
    ];
    added = inl carries;
  }

  apart-Step : (b c : PdfBlock F) → Step (b ∷ []) c (b ∷ c ∷ [])
  apart-Step b c = record {
    with_header = false;
    rows = rw (append_nil (rows_of b), append_nil (rows_of c)) refl;
    kept = λ d m. elim m [ inl p ↦ inl p | inr none ↦ absurd none ];
    added = inr (inl (refl, inl refl));
  }

  repeated-carries :
      (b c : PdfBlock F) (confidence : F)
      → continuation_mode floats limits chars casefold is_word similarity b c ≡ repeated confidence
      → is_table b.block_type ≡ true
      → is_table c.block_type ≡ true
      → Carries c (merge_pair floats limits chars casefold is_word similarity b c false confidence)
  unfolding merge_pair
  repeated-carries b c confidence q t u =
      elim (Bool-cases (
        floats.leb limits.header_similarity_min (
          row_similarity floats limits chars casefold is_word similarity b.table_headers
            c.table_headers))) [
              | inl e ↦ (t ∙ sym u, inr (inl e))
              | inr e ↦ absurd (cc (ap is_repeated q, continuation_mode-similar b c e))
            ]

  headerless-carries :
      (b c : PdfBlock F) (confidence : F)
      → is_table b.block_type ≡ true
      → is_table c.block_type ≡ true
      → Aligned b
      → Carries c (merge_pair floats limits chars casefold is_word similarity b c true confidence)
  unfolding merge_pair
  headerless-carries b c confidence t u h = (
    t ∙ sym u,
    inr (
        inr (
          subst (λ rows. Member (c.table_headers, c.page_start) rows)
            (sym (merge_pair-rows b c true confidence h))
            (Member-append_right (c.table_headers, c.page_start) (rows_of b) (fragment true c)
              (inl refl)))),
  )

  pub join_candidate-Step :
      (b c : PdfBlock F)
      → Aligned b
      → Step (b ∷ []) c (join_candidate floats limits chars casefold is_word similarity b c)
  unfolding join_candidate
  join_candidate-Step b c h = elim (Bool-cases (is_table b.block_type && is_table c.block_type)) [
    | inr e ↦ rw e (apart-Step b c)
    | inl e ↦
        by_mode (continuation_mode floats limits chars casefold is_word similarity b c) refl
          (ground (arith, e)) (ground (arith, e))
  ]
    where
      by_mode :
          (m : Continuation F)
          → continuation_mode floats limits chars casefold is_word similarity b c ≡ m
          → is_table b.block_type ≡ true
          → is_table c.block_type ≡ true
          → Step (b ∷ []) c (join_candidate floats limits chars casefold is_word similarity b c)
      by_mode apart q t u =
          let e : join_candidate floats limits chars casefold is_word similarity b c ≡ b ∷ c ∷ [] =
            rw (t, u, q, join_candidate) refl in
          subst (Step (b ∷ []) c) (sym e) (apart-Step b c)
      by_mode (repeated confidence) q t u =
          let e : join_candidate floats limits chars casefold is_word similarity b c
              ≡ merge_pair floats limits chars casefold is_word similarity b c false confidence
                ∷ [] =
            rw (t, u, q, join_candidate) refl in
          subst (Step (b ∷ []) c) (sym e)
            (merge_pair-Step b c false confidence h (repeated-carries b c confidence q t u))
      by_mode (headerless confidence) q t u =
          let e : join_candidate floats limits chars casefold is_word similarity b c
              ≡ merge_pair floats limits chars casefold is_word similarity b c true confidence
                ∷ [] =
            rw (t, u, q, join_candidate) refl in
          subst (Step (b ∷ []) c) (sym e)
            (merge_pair-Step b c true confidence h (headerless-carries b c confidence t u h))
