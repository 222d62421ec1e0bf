-- ===== src/Jobs/Enqueue.antt =====
-- `enqueue_ingestion_job`. The hash, the number format, the generator of ids and the storage of the
-- uploaded file are outside this code: they are arguments.
use flavor_rag.Prelude.{List, or_else, Bool, some, none, ◌==◌, ◌++◌, [], false, ◌&&◌, not}
use Prim.Native.Nat.{ℕ}
use Prim.Native.String.{◌++◌ as join, String}
use flavor_rag.Prelude.{◌∷◌, [], ◌++◌}
use flavor_rag.Jobs.Store.{
  Job, JobStatus, queued, success, Document, KnowledgeBase, Store, find?, update_doc,
}

-- What the caller passes in, and what the outside answers during this call: two fresh ids, and the
-- path under which the file has been stored.
pub record Request : Type 0 where
  pub kb : KnowledgeBase
  pub doc : Document
  pub file_path : String
  pub source_type : String
  pub strategy : String
  pub chunk_size : ℕ
  pub overlap : ℕ
  pub user_id : String
  pub tenant_id : String
  pub pipeline_id : String
  pub operation : String

pub record Answers : Type 0 where
  pub durable_path : String
  pub generation_id : String
  pub job_id : String
  pub max_attempts : ℕ
  pub now : ℕ

-- `sep.join(parts)`
unfoldable pub join_by : String → List String → String
join_by sep [] = ""
join_by sep (s ∷ []) = s
join_by sep (s ∷ t ∷ rest) = join s (join sep (join_by sep (t ∷ rest)))

module _ (sha256 : String → String) (show : ℕ → String) where
  unfoldable pub idempotency_key : Request → String
  unfolding join_by
  idempotency_key r = sha256 (
      join_by "|" (
        or_else r.tenant_id "default"
        ∷ r.kb.id
        ∷ r.doc.id
        ∷ r.operation
        ∷ or_else r.doc.content_hash r.file_path
        ∷ r.pipeline_id
        ∷ join_by ":" (r.strategy ∷ show r.chunk_size ∷ show r.overlap ∷ [])
        ∷ []))

  unfoldable pub new_job : Request → Answers → Job
  unfolding idempotency_key
  new_job r a = record {
    id = a.job_id;
    idempotency_key = idempotency_key r;
    tenant_id = or_else r.tenant_id "default";
    kb_id = r.kb.id;
    doc_id = r.doc.id;
    pipeline_id = r.pipeline_id;
    source_type = r.source_type;
    file_path = a.durable_path;
    chunk_strategy = r.strategy;
    chunk_size = r.chunk_size;
    overlap_size = r.overlap;
    operation = r.operation;
    generation = join "g_" a.generation_id;
    status = queued;
    attempts = 0;
    max_attempts = a.max_attempts;
    next_retry_time = none;
    claimed_by = "";
    claimed_at = none;
    started_at = none;
    completed_at = none;
    duration_ms = none;
    chunk_count = 0;
    error_message = none;
    created_by = r.user_id;
    create_time = a.now;
    deleted = false;
  }

  abbrev pub is_existing : Request → Job → Bool
  is_existing r j = j.idempotency_key == idempotency_key r && not j.deleted

  abbrev pub status_of_existing : JobStatus → String
  status_of_existing success = "success"
  status_of_existing _ = "queued"

  -- The store after the call, and the job that it returns.
  unfoldable pub enqueue_ingestion_job : Request → Answers → Store → Store × Job
  unfolding new_job find? update_doc
  enqueue_ingestion_job r a s = elim (find? (is_existing r) s.jobs) [
    | some existing ↦ (
      update_doc r.doc.id (λ d. record d { status = status_of_existing existing.status }) s,
      existing,
    )
    | none ↦
        let job = new_job r a in
        (
          update_doc r.doc.id
              (λ d. record d {
                file_url = a.durable_path;
                pending_generation = job.generation;
                status = "queued";
              })
              (record s { jobs = s.jobs ++ job ∷ [] }),
          job,
        )
  ]
