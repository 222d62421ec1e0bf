-- ===== src/Repairs/Worker.antt =====
-- IndexRepairWorker.run_once and _process. How the operations on Elasticsearch, the graph and the
-- embedder end is an argument; an exception is a text.
use flavor_rag.Prelude.{
  ℕ, String, List, Bool, Option, none, some, true, if◌then◌else◌, ◌&&◌, not, leb, eqb, ◌==◌,
  or_else, in_list, ◌+◌, ◌^◌, min, ◌⊎◌, inl, inr, [], ◌∷◌, map, filter, take,
}
use flavor_rag.Prelude.Sort.{sort}
use flavor_rag.Jobs.Store.{find?, update_where}
use flavor_rag.Indexes.Lifecycle.{KbIndex}
use flavor_rag.Repairs.Vectors.{Client, delete_by_ids, insert}
use flavor_rag.Repairs.Store.{
  RepairJob, running, retry, success, dead, is_waiting, StoredChunk, is_live,
}
use flavor_rag.Repairs.Reconcile.{collection_of, ids_of_chunks}

abbrev pub is_retry_due : ℕ → Option ℕ → Bool
is_retry_due now none = true
is_retry_due now (some t) = leb t now

unfoldable pub is_claimable : ℕ → RepairJob → Bool
is_claimable now j = not j.deleted && is_waiting j.status && is_retry_due now j.next_retry_time

-- The oldest four jobs that are due; `locked` are rows that other transactions have locked.
unfoldable pub due_repairs : ℕ → (RepairJob → Bool) → List RepairJob → List RepairJob
unfolding is_claimable
due_repairs now locked jobs = take 4 (
    filter (λ j. not (locked j))
      (sort (λ a b. leb a.create_time b.create_time) (filter (is_claimable now) jobs)))

unfoldable pub start_repair : RepairJob → RepairJob
start_repair j = record j { status = running; attempts = j.attempts + 1 }

-- The chunks that a job is about.
unfoldable pub job_chunks : RepairJob → List StoredChunk → List StoredChunk
job_chunks j chunks =
    filter (λ c. (c.doc_id == j.doc_id) && (c.generation == j.generation) && is_live c) chunks

abbrev pub succeeded : RepairJob → RepairJob
succeeded j = record j { status = success; last_error = none; next_retry_time = none }

-- `job.max_attempts or 5`
abbrev pub or_five : ℕ → ℕ
or_five n = if eqb n 0 then 5 else n

-- `max_attempts` is used up, or another attempt follows after a delay of seconds.
unfoldable pub fail_repair : ℕ → List ℕ → RepairJob → RepairJob
fail_repair now error j =
    let failed = record j { last_error = some (take 2000 error) } in
    if leb (or_five j.max_attempts) j.attempts
    then record failed { status = dead }
    else record failed {
      status = retry;
      next_retry_time = some (now + min 900 (2 ^ min j.attempts 9));
    }

abbrev pub settle_repair : ℕ → Option (List ℕ) → RepairJob → RepairJob
settle_repair now none j = succeeded j
settle_repair now (some e) j = fail_repair now e j

module _ {V Vector : Type 0} (client : Client V Vector) where
  -- What the other components answer.
  pub record Answers : Type 0 where
    pub elasticsearch : List StoredChunk → Option (List ℕ)
    pub graph : KbIndex → List StoredChunk → Option (List ℕ)
    pub embed_documents : String → List String → List ℕ ⊎ List Vector
    pub unknown_channel : String → List ℕ

  abbrev pub vector_texts : List StoredChunk → List String
  vector_texts chunks = map (λ (c : StoredChunk). or_else c.embedding_content c.content) chunks

  -- The vectors are computed, the old rows deleted, the new ones inserted; an exception ends this.
  unfoldable pub replace_vectors : Answers → V → KbIndex → List StoredChunk → V × Option (List ℕ)
  unfolding delete_by_ids insert
  replace_vectors answers v kb chunks =
      let name = collection_of kb in
      elim (answers.embed_documents kb.embedding_model (vector_texts chunks)) [
        | inl e ↦ (v, some e)
        | inr vectors ↦ elim (delete_by_ids client v name (ids_of_chunks chunks)) [
          | inl e ↦ (v, some e)
          | inr w ↦
              elim (insert client w name (ids_of_chunks chunks)
                (map (λ (c : StoredChunk). c.doc_id) chunks)
                (map (λ (c : StoredChunk). c.content) chunks) vectors) [
                  | inl e ↦ (w, some e)
                  | inr u ↦ (u, none)
                ]
        ]
      ]

  -- The operation of the job's channel: the vector server after it, and the exception that ended it.
  unfoldable pub repair_channel :
      Answers → V → KbIndex → RepairJob → List StoredChunk → V × Option (List ℕ)
  unfolding replace_vectors
  repair_channel answers v kb j chunks =
      if j.channel == "elasticsearch"
      then (v, answers.elasticsearch chunks)
      else if j.channel == "graph"
      then (v, answers.graph kb chunks)
      else if j.channel == "milvus"
      then replace_vectors answers v kb chunks
      else (v, some (answers.unknown_channel j.channel))

  -- `_process` of a job; `none` when the knowledge base has no row, which raises.
  unfoldable pub process_repair :
      Answers → ℕ → List KbIndex → List StoredChunk → V → RepairJob → Option (V × RepairJob)
  unfolding job_chunks repair_channel fail_repair find?
  process_repair answers now kbs chunks v j = elim (find? (λ (k : KbIndex). k.id == j.kb_id) kbs) [
    | none ↦ none
    | some kb ↦
        let result = repair_channel answers v kb j (job_chunks j chunks) in
        some (result.0, settle_repair now result.1 j)
  ]

  -- The jobs that have been claimed, one after the other; an exception leaves the rest running.
  unfoldable pub process_repairs :
      Answers
      → ℕ
      → List KbIndex
      → List StoredChunk
      → V
      → List RepairJob
      → List RepairJob
      → V × List RepairJob
  unfolding process_repair update_where
  process_repairs answers now kbs chunks v jobs [] = (v, jobs)
  process_repairs answers now kbs chunks v jobs (j ∷ claimed) =
      elim (process_repair answers now kbs chunks v j) [
        | none ↦ (v, jobs)
        | some (w, settled) ↦
            process_repairs answers now kbs chunks w
              (update_where (λ r. r.id == j.id) (λ r. settled) jobs) claimed
      ]

  unfoldable pub run_repairs :
      Answers
      → ℕ
      → (RepairJob → Bool)
      → List KbIndex
      → List StoredChunk
      → V
      → List RepairJob
      → V × List RepairJob
  unfolding due_repairs start_repair process_repairs update_where
  run_repairs answers now locked kbs chunks v jobs =
      let due = due_repairs now locked jobs in
      let claimed = map start_repair due in
      let running_jobs =
        update_where (λ r. in_list r.id (map (λ (j : RepairJob). j.id) due)) start_repair jobs in
      process_repairs answers now kbs chunks v running_jobs claimed
