-- ===== src/Chunker/Typed/Groups.antt =====
-- What `_pack_chunks` merges: runs of small chunks that may be merged.
use flavor_rag.Prelude.{
  is_nil, List, true, false, ◌||◌, leb, ltb, ◌*◌, ◌≤◌, ◌<◌, ◌≡◌, ◌⊎◌, inl, inr, [], ◌∷◌, ◌++◌,
  length, map, All, concat, arith, Bool-cases, refl, sym, ap, All-append, subst, append_nil,
  append_assoc, ltb→lt,
}
use flavor_rag.Prelude.Sort.{sum_by, sum_by-append}
use flavor_rag.Chunker.Typed.Parts.{BlockAwareOptions, TypedChunk}
use flavor_rag.Chunker.Typed.Merging.{
  is_mergeable, merge_buffer, flush_buffer, content_size, pack_step, pack_from, pack_chunks,
}

-- `_merge_buffer` of a buffer that is not empty.
abbrev pub merged : TypedChunk × List TypedChunk → TypedChunk
merged (first, rest) = merge_buffer first rest

abbrev pub members : TypedChunk × List TypedChunk → List TypedChunk
members (first, rest) = first ∷ rest

module _ (options : BlockAwareOptions) where
  -- The chunk may be merged and is smaller than the least size.
  abbrev pub Small : TypedChunk → Type 0
  Small c = (is_mergeable c.block_type ≡ true) × (length c.content < options.min_chars)

  -- One chunk by itself, or small ones that together have less than twice the least size.
  abbrev pub Group : TypedChunk × List TypedChunk → Type 0
  Group g =
      (g.1 ≡ [])
      ⊎ (All Small (members g) × (sum_by content_size (members g) < 2 * options.min_chars))

  -- A grouping of the chunks whose groups, merged, are the packed chunks.
  abbrev pub Packed : List TypedChunk → List TypedChunk → Type 0
  Packed chunks packed =
      (groups : List (TypedChunk × List TypedChunk)) × (concat (map members groups) ≡ chunks)
      × (map merged groups ≡ packed)
      × All Group groups

  -- What the buffer holds between two rounds.
  abbrev Buffered : List TypedChunk → Type 0
  Buffered buffer =
      All Small buffer × ((buffer ≡ []) ⊎ (sum_by content_size buffer < options.min_chars))

  Packed-one : (c : TypedChunk) (cs ps : List TypedChunk) → Packed cs ps → Packed (c ∷ cs) (c ∷ ps)
  unfolding merge_buffer
  Packed-one c cs ps (groups, joined, packed, all) =
      ((c, []) ∷ groups, ap (◌∷◌ c) joined, ap (◌∷◌ c) packed, (inl refl, all))

  Packed-flush :
      (b cs ps : List TypedChunk)
      → All Small b
      → (b ≡ []) ⊎ (sum_by content_size b < 2 * options.min_chars)
      → Packed cs ps
      → Packed (b ++ cs) (flush_buffer b ++ ps)
  Packed-flush [] cs ps small less h = h
  Packed-flush (x ∷ b) cs ps small (inl e) h = cc
  Packed-flush (x ∷ b) cs ps small (inr less) (groups, joined, packed, all) = (
    (x, b) ∷ groups,
    ap (λ r. x ∷ (b ++ r)) joined,
    ap (◌∷◌ (merge_buffer x b)) packed,
    (inr (small, less), all),
  )

  -- The round flushes the buffer and packs the chunk.
  Packed-both :
      (buffer : List TypedChunk) (c : TypedChunk) (cs ps : List TypedChunk)
      → Buffered buffer
      → Packed cs ps
      → Packed (buffer ++ c ∷ cs) (flush_buffer buffer ++ c ∷ [] ++ ps)
  Packed-both [] c cs ps h k = Packed-one c cs ps k
  Packed-both (b ∷ buffer) c cs ps (small, size) k =
      Packed-flush (b ∷ buffer) (c ∷ cs) (c ∷ ps) small
        (elim size [ inl e ↦ inl e | inr less ↦ inr (omega (arith, less)) ]) (Packed-one c cs ps k)

  Buffered-nil : Buffered []
  Buffered-nil = (tt, inl refl)

  Packed-nil : Packed [] []
  Packed-nil = ([], refl, refl, tt)

  at_most :
      (buffer : List TypedChunk) → Buffered buffer → sum_by content_size buffer ≤ options.min_chars
  at_most [] h = omega arith
  at_most (b ∷ buffer) (small, inl e) = cc
  at_most (b ∷ buffer) (small, inr less) = omega (arith, less)

  -- The buffer with one more small chunk: still small enough to be merged.
  Small-append :
      (buffer : List TypedChunk) (c : TypedChunk)
      → Buffered buffer
      → Small c
      → All Small (buffer ++ c ∷ [])
        × (sum_by content_size (buffer ++ c ∷ []) < 2 * options.min_chars)
  Small-append buffer c h small = (
    All-append Small buffer (c ∷ []) h.0 (small, tt),
    omega (arith, sum_by-append content_size buffer (c ∷ []), at_most buffer h, small.1),
  )

  is_nil_lem : (buffer : List TypedChunk) → is_nil buffer ≡ true → buffer ≡ []
  is_nil_lem [] h = refl
  is_nil_lem (b ∷ buffer) h = cc

  Packed-regroup :
      (buffer : List TypedChunk) (c : TypedChunk) (cs ps : List TypedChunk)
      → Packed (buffer ++ c ∷ [] ++ cs) ps
      → Packed (buffer ++ (c ∷ cs)) ps
  Packed-regroup buffer c cs ps h = subst (λ l. Packed l ps) (append_assoc buffer (c ∷ []) cs) h

  pack_from-Packed :
      (buffer chunks : List TypedChunk)
      → Buffered buffer
      → Packed (buffer ++ chunks) (pack_from options buffer chunks)
  unfolding pack_from pack_step
  pack_from-Packed buffer [] h = rw (sym (append_nil (flush_buffer buffer))) (
      Packed-flush buffer [] [] h.0
        (elim h.1 [ inl e ↦ inl e | inr less ↦ inr (omega (arith, less)) ]) Packed-nil)
  pack_from-Packed buffer (c ∷ cs) h =
      let more = buffer ++ c ∷ [] in
      let fresh = pack_from-Packed [] cs Buffered-nil in
      elim (Bool-cases (is_mergeable c.block_type)) [
        | inr e ↦ rw e (Packed-both buffer c cs (pack_from options [] cs) h fresh)
        | inl e ↦ elim (Bool-cases (ltb (length c.content) options.min_chars)) [
          | inr f ↦ rw (e, f) (Packed-both buffer c cs (pack_from options [] cs) h fresh)
          | inl f ↦
              let small : Small c = (e, ltb→lt (length c.content) options.min_chars f) in
              let joined = Small-append buffer c h small in
              elim (Bool-cases (is_nil buffer)) [
                | inl g ↦
                    rw (is_nil_lem buffer g, e, f)
                      (pack_from-Packed (c ∷ []) cs ((small, tt), inr (omega (arith, small.1))))
                | inr g ↦
                    elim (Bool-cases (
                      leb options.min_chars (sum_by content_size more)
                      || ltb options.max_chars (sum_by content_size more))) [
                        | inl k ↦
                            rw (e, f, g, k)
                              (Packed-regroup buffer c cs
                                (flush_buffer more ++ pack_from options [] cs)
                                (Packed-flush more cs (pack_from options [] cs) joined.0
                                  (inr joined.1) fresh))
                        | inr k ↦
                            rw (e, f, g, k)
                              (Packed-regroup buffer c cs (pack_from options more cs)
                                (pack_from-Packed more cs (joined.0, inr (ground (arith, k)))))
                      ]
              ]
        ]
      ]

-- The packed chunks are the merged groups of a grouping of the chunks: a group is one chunk, or chunks
-- that may all be merged, each smaller than the least size and together less than twice that.
pub pack_chunks_lem :
    (options : BlockAwareOptions) (chunks : List TypedChunk)
    → Packed options chunks (pack_chunks options chunks)
unfolding pack_chunks
pack_chunks_lem options [] = pack_from-Packed options [] [] (Buffered-nil options)
pack_chunks_lem options (c ∷ []) = Packed-one options c [] [] (Packed-nil options)
pack_chunks_lem options (c ∷ d ∷ cs) =
    let big : leb (length (c ∷ d ∷ cs)) 1 ≡ false = ground arith in
    rw big (pack_from-Packed options [] (c ∷ d ∷ cs) (Buffered-nil options))
