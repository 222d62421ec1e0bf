-- ===== src/Repairs/Reconcile.antt =====
-- IndexReconciliationWorker.run_once. The lock's answer, the identifiers of new rows and the time are
-- arguments; an exception ends the round, and what was deleted from the collections stays deleted.
use flavor_rag.Prelude.{
  is_nil, ℕ, String, List, Bool, none, false, if◌then◌else◌, ◌&&◌, not, ◌==◌, or_else, in_list, ◌⊎◌,
  inl, inr, [], ◌∷◌, ◌++◌, length, map, filter,
}
use flavor_rag.Indexes.Lifecycle.{KbIndex}
use flavor_rag.Repairs.Vectors.{Client, existing_chunk_ids, all_chunk_ids, delete_by_ids}
use flavor_rag.Repairs.Store.{RepairJob, queued, is_open, StoredChunk, is_live}

-- `kb.active_collection_name or kb.collection_name`
abbrev pub collection_of : KbIndex → String
collection_of kb = or_else kb.active_collection_name kb.collection_name

unfoldable pub active_chunks : KbIndex → List StoredChunk → List StoredChunk
active_chunks kb chunks = filter (λ c. (c.kb_id == kb.id) && is_live c) chunks

abbrev pub ids_of_chunks : List StoredChunk → List String
ids_of_chunks chunks = map (λ (c : StoredChunk). c.id) chunks

-- A document and one of its generations: the keys of `docs`.
abbrev pub DocKey : Type 0
DocKey = String × String

abbrev pub same_key : DocKey → DocKey → Bool
same_key a b = (a.0 == b.0) && (a.1 == b.1)

abbrev pub chunk_key : StoredChunk → DocKey
chunk_key c = (c.doc_id, c.generation)

-- The keys of the dictionary that the loop over the chunks fills.
unfoldable pub doc_keys : List StoredChunk → List DocKey
doc_keys [] = []
doc_keys (c ∷ chunks) =
    let rest = doc_keys chunks in chunk_key c ∷ filter (λ k. not (same_key k (chunk_key c))) rest

-- An open job of the document and generation for the vector index.
unfoldable pub is_pending : DocKey → RepairJob → Bool
is_pending k j =
    same_key (j.doc_id, j.generation) k
    && (j.channel == "milvus")
    && is_open j.status
    && not j.deleted

unfoldable pub new_repair : String → ℕ → String → DocKey → RepairJob
new_repair id now kb_id k = record {
  id = id;
  kb_id = kb_id;
  doc_id = k.0;
  generation = k.1;
  channel = "milvus";
  operation = "REPLACE_DOCUMENT";
  status = queued;
  attempts = 0;
  max_attempts = 5;
  next_retry_time = none;
  last_error = none;
  create_time = now;
  deleted = false;
}

-- `MultipleResultsFound`
abbrev pub multiple_results : List ℕ
multiple_results = 77 ∷ []

module _ (gen_id : ℕ → String) (now : ℕ) where
  -- The jobs after the loop over `docs`; the query for a pending job raises when there are two.
  unfoldable pub queue_missing : String → List DocKey → List RepairJob → List ℕ ⊎ List RepairJob
  unfolding is_pending new_repair
  queue_missing kb_id [] jobs = inr jobs
  queue_missing kb_id (k ∷ keys) jobs = elim (filter (is_pending k) jobs) [
    | [] ↦ queue_missing kb_id keys (jobs ++ new_repair (gen_id (length jobs)) now kb_id k ∷ [])
    | j ∷ js ↦ if is_nil js then queue_missing kb_id keys jobs else inl multiple_results
  ]

  module _ {V Vector : Type 0} (client : Client V Vector) where
    -- The round for one knowledge base. Sets are lists here, `sorted` is left out.
    abbrev pub missing_ids : V → KbIndex → List StoredChunk → List StoredChunk
    missing_ids v kb active =
        let existing = existing_chunk_ids client v (collection_of kb) (ids_of_chunks active) in
        filter (λ c. not (in_list c.id existing)) active

    abbrev pub orphan_ids : V → KbIndex → List StoredChunk → List String
    orphan_ids v kb active =
        filter (λ x. not (in_list x (ids_of_chunks active)))
          (all_chunk_ids client v (collection_of kb))

    unfoldable pub reconcile_kb :
        V → KbIndex → List StoredChunk → List RepairJob → V × (List ℕ ⊎ List RepairJob)
    unfolding queue_missing doc_keys active_chunks existing_chunk_ids all_chunk_ids delete_by_ids
    reconcile_kb v kb chunks jobs =
        let active = active_chunks kb chunks in
        let missing = missing_ids v kb active in
        elim (delete_by_ids client v (collection_of kb) (orphan_ids v kb active)) [
          | inl e ↦ (v, inl e)
          | inr w ↦
              if is_nil missing
              then (w, inr jobs)
              else (w, queue_missing kb.id (doc_keys missing) jobs)
        ]

    unfoldable pub reconcile_all :
        V → List KbIndex → List StoredChunk → List RepairJob → V × (List ℕ ⊎ List RepairJob)
    unfolding reconcile_kb
    reconcile_all v [] chunks jobs = (v, inr jobs)
    reconcile_all v (kb ∷ kbs) chunks jobs = elim ((reconcile_kb v kb chunks jobs).1) [
      | inl e ↦ ((reconcile_kb v kb chunks jobs).0, inl e)
      | inr more ↦ reconcile_all ((reconcile_kb v kb chunks jobs).0) kbs chunks more
    ]

    -- `acquired` is the lock's answer. `queued` is how many jobs there are more.
    unfoldable pub run_reconciliation :
        Bool → V → List KbIndex → List StoredChunk → List RepairJob → V × (List ℕ ⊎ List RepairJob)
    unfolding reconcile_all
    run_reconciliation acquired v kbs chunks jobs =
        if acquired
        then reconcile_all v (filter (λ kb. not kb.deleted) kbs) chunks jobs
        else (v, inr jobs)
