-- ===== src/Chunker/Typed/CodeLines.antt =====
-- `_chunk_code`: the chunks of a code block are its lines.
use flavor_rag.Prelude.{
  ℕ, suc, zero, List, some, eqb, leb, ◌+◌, ◌≤◌, ◌≡◌, inl, inr, [], ◌∷◌, ◌++◌, length, map, concat,
  batches, concat-batches, batches-bounds, All, arith, Bool-cases, refl, sym, ◌∙◌, ap, append_assoc,
  eqb→eq, append_nil, All-map, leb→le,
}
use flavor_rag.Chunker.Typed.Patterns.{split_at, join, add_char}
use flavor_rag.Chunker.Typed.Parts.{
  BlockAwareOptions, TypedChunk, plain_chunk, numbered_chunks, in_batches, chunk_code,
}
use flavor_rag.Chunker.Chars.{CharTests}

length-add_char : (sep c : ℕ) (parts : List (List ℕ)) → 1 ≤ length (add_char sep c parts)
length-add_char sep c [] = omega arith
length-add_char sep c (part ∷ parts) = ground arith

length-split_at : (sep : ℕ) (text : List ℕ) → 1 ≤ length (split_at sep text)
unfolding split_at
length-split_at sep [] = omega arith
length-split_at sep (c ∷ cs) = length-add_char sep c (split_at sep cs)

join-add_char :
    (sep c : ℕ) (parts : List (List ℕ))
    → 1 ≤ length parts
    → join (sep ∷ []) (add_char sep c parts) ≡ c ∷ join (sep ∷ []) parts
unfolding join
join-add_char sep c [] h = absurd (omega (arith, h))
join-add_char sep c (part ∷ []) h = elim (Bool-cases (eqb c sep)) [
  | inl e ↦ rw (e, eqb→eq c sep e) refl
  | inr e ↦ rw e refl
]
join-add_char sep c (part ∷ q ∷ parts) h = elim (Bool-cases (eqb c sep)) [
  | inl e ↦ rw (e, eqb→eq c sep e) refl
  | inr e ↦ rw e refl
]

join-split_at : (sep : ℕ) (text : List ℕ) → join (sep ∷ []) (split_at sep text) ≡ text
unfolding split_at join
join-split_at sep [] = refl
join-split_at sep (c ∷ cs) =
    join-add_char sep c (split_at sep cs) (length-split_at sep cs)
    ∙ ap (◌∷◌ c) (join-split_at sep cs)

module _ (sep : List ℕ) where
  join-append :
      (xs ys : List (List ℕ))
      → 1 ≤ length xs
      → 1 ≤ length ys
      → join sep (xs ++ ys) ≡ join sep xs ++ (sep ++ join sep ys)
  unfolding join
  join-append [] ys h k = absurd (omega (arith, h))
  join-append (x ∷ []) [] h k = absurd (omega (arith, k))
  join-append (x ∷ []) (y ∷ ys) h k = refl
  join-append (x ∷ z ∷ xs) ys h k =
      ap (λ r. x ++ (sep ++ r)) (join-append (z ∷ xs) ys (omega arith) k)
      ∙ ap (λ r. x ++ r) (sym (append_assoc sep (join sep (z ∷ xs)) (sep ++ join sep ys)))
      ∙ sym (append_assoc x (sep ++ join sep (z ∷ xs)) (sep ++ join sep ys))

  -- Texts joined batch by batch are the texts joined.
  join-batches :
      (bs : List (List (List ℕ)))
      → All (λ b. 1 ≤ length b) bs
      → join sep (map (join sep) bs) ≡ join sep (concat bs)
  unfolding join
  join-batches [] h = refl
  join-batches (b ∷ []) h = ap (join sep) (sym (append_nil b))
  join-batches (b ∷ c ∷ bs) h =
      ap (λ r. join sep b ++ (sep ++ r)) (join-batches (c ∷ bs) h.1)
      ∙ sym (join-append b (concat (c ∷ bs)) h.0 (some_first c (concat bs) h.1.0))
    where
      some_first : (xs ys : List (List ℕ)) → 1 ≤ length xs → 1 ≤ length (xs ++ ys)
      some_first [] ys h = absurd (omega (arith, h))
      some_first (x ∷ xs) ys h = omega arith

contents-numbered :
    (i : ℕ) (parts : List (List ℕ))
    → map (λ (r : TypedChunk). r.content) (numbered_chunks plain_chunk i parts) ≡ parts
contents-numbered i [] = refl
contents-numbered i (p ∷ parts) = ap (◌∷◌ p) (contents-numbered (i + 1) parts)

-- The content of the chunk is at most `most` lines.
abbrev pub HasLines : ℕ → TypedChunk → Type 0
HasLines most r =
    (lines : List (List ℕ)) × (r.content ≡ join (10 ∷ []) lines)
    × (1 ≤ length lines)
    × (length lines ≤ most)

numbered-HasLines :
    (most i : ℕ) (bs : List (List (List ℕ)))
    → All (λ b. (1 ≤ length b) × (length b ≤ most)) bs
    → All (HasLines most) (numbered_chunks plain_chunk i (map (λ b. join (10 ∷ []) b) bs))
numbered-HasLines most i [] h = tt
numbered-HasLines most i (b ∷ bs) h =
    ((b, refl, h.0.0, h.0.1), numbered-HasLines most (i + 1) bs h.1)

-- When a chunk may have a line, the chunks of a code block, joined by newlines, are the block, and
-- each has at least one line and at most as many as allowed.
pub join-chunk_code :
    (chars : CharTests) (options : BlockAwareOptions) (text : List ℕ)
    → 1 ≤ options.code_max_lines
    → (out : List TypedChunk) × (chunk_code chars options text ≡ some out)
      × (join (10 ∷ []) (map (λ (r : TypedChunk). r.content) out) ≡ text)
      × All (HasLines options.code_max_lines) out
unfolding chunk_code join
join-chunk_code chars options text h =
    let lines = split_at 10 text in
    elim (Bool-cases (leb (length lines) options.code_max_lines)) [
      | inl e ↦ (
        plain_chunk text 0 ∷ [],
        rw e refl,
        join_one text,
        (
          (
            lines,
            sym (join-split_at 10 text),
            length-split_at 10 text,
            leb→le (length lines) options.code_max_lines e,
          ),
          tt,
        ),
      )
      | inr e ↦ rw e (divided options.code_max_lines h)
    ]
  where
    join_one : (t : List ℕ) → join (10 ∷ []) (t ∷ []) ≡ t
    join_one t = refl

    divided :
        (most : ℕ)
        → 1 ≤ most
        → (out : List TypedChunk) × (in_batches chars most (split_at 10 text) ≡ some out)
          × (join (10 ∷ []) (map (λ (r : TypedChunk). r.content) out) ≡ text)
          × All (HasLines most) out
    divided zero k = absurd (omega (arith, k))
    divided (suc most) k =
        let lines = split_at 10 text in
        let bs = batches (suc most) lines in
        let sizes = batches-bounds (suc most) lines k in
        (
          numbered_chunks plain_chunk 0 (map (λ b. join (10 ∷ []) b) bs),
          refl,
          ap (join (10 ∷ [])) (contents-numbered 0 (map (λ b. join (10 ∷ []) b) bs))
              ∙ join-batches (10 ∷ []) bs (
                  All-map (λ b. (1 ≤ length b) × (length b ≤ suc most)) (λ b. 1 ≤ length b) bs
                    (λ b g. g.0) sizes)
              ∙ ap (join (10 ∷ [])) (concat-batches (suc most) lines k)
              ∙ join-split_at 10 text,
          numbered-HasLines (suc most) 0 bs sizes,
        )
