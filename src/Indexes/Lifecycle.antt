-- ===== src/Indexes/Lifecycle.antt =====
-- `plan` and `build_and_promote`. What the embedder and the vector store answer is a parameter; an
-- exception is a text. An identifier that the code makes is an argument.
use flavor_rag.Prelude.{
  ℕ, suc, zero, String, List, [], ◌∷◌, ◌++◌, Bool, true, false, Option, none, some, ◌⊎◌, inl, inr,
  if◌then◌else◌, ◌==◌, ◌&&◌, not, eqb, ◌+◌, length, take, drop, filter, map, or_else,
}
use Prim.Native.String.{◌++◌ as join}
use flavor_rag.Jobs.Store.{find?, update_where}

pub data GenerationStatus : Type 0 where
  building active retired failed : GenerationStatus

abbrev pub is_active : GenerationStatus → Bool
is_active active = true
is_active _ = false

pub record Generation : Type 0 where
  pub id : String
  pub kb_id : String
  pub generation : String
  pub collection_name : String
  pub embedding_model : String
  pub embedding_dim : ℕ
  pub status : GenerationStatus
  pub expected_chunks : ℕ
  pub indexed_chunks : ℕ
  pub error_message : List ℕ
  pub activated_at : Option ℕ
  pub created_by : String
  pub deleted : Bool

pub record KbIndex : Type 0 where
  pub id : String
  pub collection_name : String
  pub embedding_model : String
  pub active_collection_name : String
  pub active_index_generation : String
  pub deleted : Bool

pub record Chunk : Type 0 where
  pub id : String
  pub kb_id : String
  pub doc_id : String
  pub content : String
  pub embedding_content : String
  pub index_status : String
  pub enabled : Bool
  pub deleted : Bool

-- The chunks stand in the order of their documents and of their places in these.
pub record Indexes : Type 0 where
  pub generations : List Generation
  pub kbs : List KbIndex
  pub chunks : List Chunk

-- `generation_id` is the identifier inside the generation's name, `record_id` that of the row.
unfoldable pub plan : String → String → KbIndex → String → Indexes → Indexes × String
plan generation_id record_id kb user_id s =
    let generation = join "g_" generation_id in
    let row : Generation = record {
      id = record_id;
      kb_id = kb.id;
      generation = generation;
      collection_name = join kb.collection_name (join "__" generation);
      embedding_model = kb.embedding_model;
      embedding_dim = 0;
      status = building;
      expected_chunks = 0;
      indexed_chunks = 0;
      error_message = [];
      activated_at = none;
      created_by = user_id;
      deleted = false;
    } in
    (record s { generations = s.generations ++ row ∷ [] }, record_id)

unfoldable pub chunks_of : String → List Chunk → List Chunk
chunks_of kb_id chunks =
    filter
      (λ (c : Chunk). c.kb_id == kb_id && c.index_status == "ACTIVE" && not c.deleted && c.enabled)
      chunks

-- The exceptions that end a build: those of the embedder and of the vector store, and the two that the
-- code raises itself; and a row that is not there.
pub data BuildError : Type 0 where
  backend_error : List ℕ → BuildError
  zero_chunks : BuildError
  validation_failed : ℕ → ℕ → BuildError
  no_row : BuildError

-- A vector of the embedder, by its number of components.
pub record Backend : Type 0 where
  pub embed_documents : List String → BuildError ⊎ List ℕ
  pub create_collection : String → ℕ → Option BuildError
  pub insert : String → List String → Option BuildError
  pub str : BuildError → List ℕ
  -- The number of entities of a collection into which the batches have been inserted, after the flush.
  pub num_entities : String → List (List String) → BuildError ⊎ ℕ

-- What the loop over the batches has done: the vectors' dimension, the number of chunks indexed, and
-- the batches inserted.
pub record Progress : Type 0 where
  pub resolved_dim : ℕ
  pub indexed : ℕ
  pub inserted : List (List String)

abbrev pub start_progress : Progress
start_progress = record { resolved_dim = 0; indexed = 0; inserted = [] }

module _ (backend : Backend) (collection : String) where
  -- The batch is inserted, unless the vector store refuses.
  unfoldable pub insert_batch : List Chunk → Progress → BuildError ⊎ Progress
  insert_batch batch p = elim (backend.insert collection (map (λ (c : Chunk). c.id) batch)) [
    | some error ↦ inl error
    | none ↦ inr (record p {
      indexed = p.indexed + length batch;
      inserted = p.inserted ++ map (λ (c : Chunk). c.id) batch ∷ [];
    })
  ]

  -- One round of the loop. A batch for which the embedder has no vectors is passed over.
  unfoldable pub index_batch : List Chunk → Progress → BuildError ⊎ Progress
  unfolding insert_batch
  index_batch batch p =
      elim (backend.embed_documents
        (map (λ (c : Chunk). or_else c.embedding_content c.content) batch)) [
          | inl error ↦ inl error
          | inr [] ↦ inr p
          | inr (v ∷ vs) ↦
              if eqb p.indexed 0
              then elim (backend.create_collection collection v) [
                | some error ↦ inl error
                | none ↦ insert_batch batch (record p { resolved_dim = v })
              ]
              else insert_batch batch p
        ]

  -- The loop over the chunks in steps of 64, on fuel; a round takes at least one chunk.
  unfoldable pub index_batches : ℕ → List Chunk → Progress → BuildError ⊎ Progress
  unfolding index_batch
  index_batches zero chunks p = inr p
  index_batches (suc fuel) [] p = inr p
  index_batches (suc fuel) (c ∷ chunks) p = elim (index_batch (take 64 (c ∷ chunks)) p) [
    | inl error ↦ inl error
    | inr q ↦ index_batches fuel (drop 64 (c ∷ chunks)) q
  ]

  -- The `try` block up to the promotion: the dimension and the number of entities, or an exception.
  unfoldable pub build : List Chunk → BuildError ⊎ (ℕ × ℕ)
  unfolding index_batches
  build [] = inl zero_chunks
  build (c ∷ chunks) = elim (index_batches (length (c ∷ chunks)) (c ∷ chunks) start_progress) [
    | inl error ↦ inl error
    | inr p ↦ elim (backend.num_entities collection p.inserted) [
      | inl error ↦ inl error
      | inr actual ↦
          if eqb actual (length (c ∷ chunks))
          then inr (p.resolved_dim, actual)
          else inl (validation_failed (length (c ∷ chunks)) actual)
    ]
  ]

-- The promotion: the row of the generation becomes active, and those of its base that were are retired.
unfoldable pub promote_row : String → String → ℕ → ℕ → ℕ → Generation → Generation
promote_row id kb_id dim actual now g =
    if g.id == id
    then record g {
      status = active;
      embedding_dim = dim;
      indexed_chunks = actual;
      activated_at = some now;
    }
    else if g.kb_id == kb_id && is_active g.status
    then record g { status = retired }
    else g

unfoldable pub promote : Generation → ℕ → ℕ → ℕ → Indexes → Indexes
unfolding promote_row update_where
promote record_ dim actual now s = record s {
  generations = map (promote_row record_.id record_.kb_id dim actual now) s.generations;
  kbs =
      update_where (λ (k : KbIndex). k.id == record_.kb_id)
        (λ k. record k {
          active_collection_name = record_.collection_name;
          active_index_generation = record_.generation;
        })
        s.kbs;
}

unfoldable pub set_expected : String → ℕ → Indexes → Indexes
unfolding update_where
set_expected id n s = record s {
  generations =
      update_where (λ (g : Generation). g.id == id) (λ g. record g { expected_chunks = n })
        s.generations;
}

unfoldable pub mark_failed : String → List ℕ → Indexes → Indexes
unfolding update_where
mark_failed id error s = record s {
  generations =
      update_where (λ (g : Generation). g.id == id)
        (λ g. record g { status = failed; error_message = take 2000 error }) s.generations;
}

-- The exception that the call raises is its second result.
unfoldable pub build_and_promote : Backend → ℕ → String → Indexes → Indexes × Option BuildError
unfolding find? chunks_of set_expected build promote mark_failed
build_and_promote backend now generation_id s =
    elim (find? (λ (g : Generation). g.id == generation_id && not g.deleted) s.generations) [
      | none ↦ (s, some no_row)
      | some row ↦ elim (find? (λ (k : KbIndex). k.id == row.kb_id && not k.deleted) s.kbs) [
        | none ↦ (s, some no_row)
        | some kb ↦
            let chunks = chunks_of kb.id s.chunks in
            let s' = set_expected generation_id (length chunks) s in
            elim (build backend row.collection_name chunks) [
              | inl error ↦ (mark_failed generation_id (backend.str error) s', some error)
              | inr (dim, actual) ↦ (promote row dim actual now s', none)
            ]
      ]
    ]
