-- ===== src/Jobs/Store.antt =====
-- The rows of `IngestionJob`, `KnowledgeDocument` and `KnowledgeBase` that the job code reads and
-- writes, as tables in the order of insertion. Times are seconds. A nullable number that the code
-- reads through `or 0` or `or 1` is a number, with 0 for NULL.
use flavor_rag.Prelude.{ℕ, String, List, [], ◌∷◌, Option, none, some, Bool, if◌then◌else◌, ◌==◌}

pub data JobStatus : Type 0 where
  queued running retry success dead : JobStatus

pub record Job : Type 0 where
  pub id : String
  pub idempotency_key : String
  pub tenant_id : String
  pub kb_id : String
  pub doc_id : String
  pub pipeline_id : String
  pub source_type : String
  pub file_path : String
  pub chunk_strategy : String
  pub chunk_size : ℕ
  pub overlap_size : ℕ
  pub operation : String
  pub generation : String
  pub status : JobStatus
  pub attempts : ℕ
  pub max_attempts : ℕ
  pub next_retry_time : Option ℕ
  pub claimed_by : String
  pub claimed_at : Option ℕ
  pub started_at : Option ℕ
  pub completed_at : Option ℕ
  pub duration_ms : Option ℕ
  pub chunk_count : ℕ
  pub error_message : Option (List ℕ)
  pub created_by : String
  pub create_time : ℕ
  pub deleted : Bool

pub record Document : Type 0 where
  pub id : String
  pub kb_id : String
  pub doc_name : String
  pub content_hash : String
  pub file_url : String
  pub status : String
  pub chunk_count : ℕ
  pub pending_generation : String
  pub deleted : Bool

pub record KnowledgeBase : Type 0 where
  pub id : String
  pub pipeline_id : String
  pub deleted : Bool

pub record Store : Type 0 where
  pub jobs : List Job
  pub docs : List Document
  pub kbs : List KnowledgeBase

module _ {A : Type 0} where
  -- `.scalar_one_or_none()` of a query on a unique key.
  unfoldable pub find? : (A → Bool) → List A → Option A
  find? p [] = none
  find? p (x ∷ xs) = if p x then some x else find? p xs

  -- The rows for which the test holds are changed, the others stay.
  unfoldable pub update_where : (A → Bool) → (A → A) → List A → List A
  update_where p f [] = []
  update_where p f (x ∷ xs) = (if p x then f x else x) ∷ update_where p f xs

unfoldable pub update_job : String → (Job → Job) → Store → Store
unfolding update_where
update_job job_id f s = record s { jobs = update_where (λ j. j.id == job_id) f s.jobs }

unfoldable pub update_doc : String → (Document → Document) → Store → Store
unfolding update_where
update_doc doc_id f s = record s { docs = update_where (λ d. d.id == doc_id) f s.docs }
