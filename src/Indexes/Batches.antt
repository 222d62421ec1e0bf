-- ===== src/Indexes/Batches.antt =====
-- The loop over the batches of chunks.
use flavor_rag.Prelude.{
  ℕ, suc, zero, String, List, [], ◌∷◌, ◌++◌, Option, none, some, ◌⊎◌, inl, inr, ◌≡◌, ◌≢◌, ◌≤◌, ◌+◌,
  ◌-◌, eqb, length, length-take, take, drop, map, take-append-drop, Bool-cases, Option-cases, arith,
  refl, sym, ap, ◌∙◌, or_else, append_assoc,
}
use flavor_rag.Indexes.Lifecycle.{
  Chunk, BuildError, Backend, Progress, insert_batch, index_batch, index_batches, start_progress,
}

-- All ids of the batches, in order.
abbrev pub flat : List (List String) → List String
flat [] = []
flat (b ∷ bs) = b ++ flat bs

abbrev pub ids : List Chunk → List String
ids chunks = map (λ (c : Chunk). c.id) chunks

append_nil : (xs : List String) → xs ++ [] ≡ xs
append_nil [] = refl
append_nil (x ∷ xs) = ap (◌∷◌ x) (append_nil xs)

flat-append_last : (bs : List (List String)) (b : List String) → flat (bs ++ b ∷ []) ≡ flat bs ++ b
flat-append_last [] b = append_nil b
flat-append_last (c ∷ bs) b =
    ap (λ z. c ++ z) (flat-append_last bs b) ∙ sym (append_assoc c (flat bs) b)

ids-append : (xs ys : List Chunk) → ids (xs ++ ys) ≡ ids xs ++ ids ys
ids-append [] ys = refl
ids-append (x ∷ xs) ys = ap (◌∷◌ x.id) (ids-append xs ys)

length-drop : {A : Type 0} (n : ℕ) (xs : List A) → length (drop n xs) ≡ length xs - n
length-drop zero xs = omega arith
length-drop (suc n) [] = omega arith
length-drop (suc n) (x ∷ xs) = omega (arith, length-drop n xs)

module _ (backend : Backend) (collection : String)
    (answers : (texts : List String) → backend.embed_documents texts ≢ inr []) where
  -- A batch of which each id has been inserted and counted.
  abbrev Counted : List Chunk → Progress → Progress → Type 0
  Counted batch p q =
      (q.inserted ≡ p.inserted ++ ids batch ∷ []) × (q.indexed ≡ p.indexed + length batch)

  insert_batch-Counted :
      (batch : List Chunk) (p q : Progress)
      → insert_batch backend collection batch p ≡ inr q
      → Counted batch p q
  unfolding insert_batch
  insert_batch-Counted batch p q h = elim (Option-cases (backend.insert collection (ids batch))) [
    | inr (e, at) ↦ cc (rw (at, insert_batch) at h)
    | inl at ↦
        let done : inr (record p {
          indexed = p.indexed + length batch;
          inserted = p.inserted ++ ids batch ∷ [];
        })
            ≡ inr q =
          rw (at, insert_batch) at h in
        let same : record p {
          indexed = p.indexed + length batch;
          inserted = p.inserted ++ ids batch ∷ [];
        }
            ≡ q =
          cc done in
        (ap (λ x. x.inserted) (sym same), ap (λ x. x.indexed) (sym same))
  ]

  index_batch-Counted :
      (batch : List Chunk) (p q : Progress)
      → index_batch backend collection batch p ≡ inr q
      → Counted batch p q
  unfolding index_batch
  index_batch-Counted batch p q h =
      by_vectors
        (backend.embed_documents (map (λ (c : Chunk). or_else c.embedding_content c.content) batch))
        refl h
    where
      created :
          (v : ℕ) (o : Option BuildError)
          → backend.create_collection collection v ≡ o
          → (elim (backend.create_collection collection v) [
            | some error ↦ inl error
            | none ↦ insert_batch backend collection batch (record p { resolved_dim = v })
          ])
            ≡ inr q
          → Counted batch p q
      created v (some e) at k = cc (rw at at k)
      created v none at k =
          insert_batch-Counted batch (record p { resolved_dim = v }) q (rw at at k)

      by_vectors :
          (o : BuildError ⊎ List ℕ)
          → backend.embed_documents
              (map (λ (c : Chunk). or_else c.embedding_content c.content) batch)
            ≡ o
          → index_batch backend collection batch p ≡ inr q
          → Counted batch p q
      by_vectors (inl e) at k = cc (rw (at, index_batch) at k)
      by_vectors (inr []) at k = absurd (answers _ at)
      by_vectors (inr (v ∷ vs)) at k = elim (Bool-cases (eqb p.indexed 0)) [
        | inl z ↦
            created v (backend.create_collection collection v) refl (rw (at, index_batch, z) at k)
        | inr z ↦ insert_batch-Counted batch p q (rw (at, index_batch, z) at k)
      ]

  batches-Counted :
      (fuel : ℕ) (chunks : List Chunk) (p q : Progress)
      → length chunks ≤ fuel
      → index_batches backend collection fuel chunks p ≡ inr q
      → (flat q.inserted ≡ flat p.inserted ++ ids chunks) × (q.indexed ≡ p.indexed + length chunks)
  unfolding index_batches
  batches-Counted zero [] p q enough h =
      let same : p ≡ q = cc h in
      (
        ap (λ x. flat x.inserted) (sym same) ∙ sym (append_nil (flat p.inserted)),
        ap (λ x. x.indexed) (sym same) ∙ omega arith,
      )
  batches-Counted zero (c ∷ chunks) p q enough h = absurd (omega arith)
  batches-Counted (suc fuel) [] p q enough h =
      let same : p ≡ q = cc h in
      (
        ap (λ x. flat x.inserted) (sym same) ∙ sym (append_nil (flat p.inserted)),
        ap (λ x. x.indexed) (sym same) ∙ omega arith,
      )
  batches-Counted (suc fuel) (c ∷ chunks) p q enough h =
      by_batch (index_batch backend collection (take 64 (c ∷ chunks)) p) refl (λ r.
        batches-Counted fuel (drop 64 (c ∷ chunks)) r q
          (omega (arith, length-drop 64 (c ∷ chunks), enough)))
    where
      by_batch :
          (o : BuildError ⊎ Progress)
          → index_batch backend collection (take 64 (c ∷ chunks)) p ≡ o
          → ((r : Progress)
              → index_batches backend collection fuel (drop 64 (c ∷ chunks)) r ≡ inr q
              → (flat q.inserted ≡ flat r.inserted ++ ids (drop 64 (c ∷ chunks)))
                × (q.indexed ≡ r.indexed + length (drop 64 (c ∷ chunks))))
          → (flat q.inserted ≡ flat p.inserted ++ ids (c ∷ chunks))
            × (q.indexed ≡ p.indexed + length (c ∷ chunks))
      by_batch (inl e) at again = cc (rw (at, index_batches) at h)
      by_batch (inr r) at again =
          let batch = take 64 (c ∷ chunks) in
          let rest = drop 64 (c ∷ chunks) in
          let (put, counted) = index_batch-Counted batch p r at in
          let (f, n) = again r (rw (at, index_batches) at h) in
          (
            f
                ∙ ap (λ b. flat b ++ ids rest) put
                ∙ ap (λ z. z ++ ids rest) (flat-append_last p.inserted (ids batch))
                ∙ append_assoc (flat p.inserted) (ids batch) (ids rest)
                ∙ ap (λ z. flat p.inserted ++ z)
                    (sym (ids-append batch rest) ∙ ap ids (take-append-drop 64 (c ∷ chunks))),
            omega (arith, n, counted, length-take 64 (c ∷ chunks), length-drop 64 (c ∷ chunks)),
          )

  -- If the embedder has vectors for every batch, then the loop, unless the vector store or the embedder
  -- raises an exception, has inserted every chunk once and in order, and counted them all.
  pub index_batches_lem :
      (chunks : List Chunk) (q : Progress)
      → index_batches backend collection (length chunks) chunks start_progress ≡ inr q
      → (flat q.inserted ≡ ids chunks) × (q.indexed ≡ length chunks)
  index_batches_lem chunks q h =
      let (f, n) = batches-Counted (length chunks) chunks start_progress q (omega arith) h in
      (f, omega (arith, n))
