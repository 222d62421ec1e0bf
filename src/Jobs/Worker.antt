-- ===== src/Jobs/Worker.antt =====
-- `IngestionJobWorker`: `_claim_jobs`, `_process_job` and `_mark_failure`. The metrics and the log are
-- not modelled. Rows locked by another transaction, the files that are there, and the outcome of
-- `execute_ingestion` are arguments.
use Prim.Native.String.{String}
use Prim.Native.Nat.{ℕ, min}
use flavor_rag.Prelude.{
  Option, Bool, List, ◌⊎◌, false, not, leb, take, some, map, true, if◌then◌else◌, ◌==◌, ◌&&◌,
  filter, ◌+◌, in_list, eqb, ◌^◌, ◌||◌, none, ◌*◌, inr, inl,
}
use mathlib.Core.Option
use flavor_rag.Prelude.Sort.{sort}
use flavor_rag.Jobs.Store.{
  Job, JobStatus, queued, running, retry, success, dead, Document, KnowledgeBase, Store, find?,
  update_where, update_job, update_doc,
}

-- `a.time <= now` on a nullable column: false for NULL.
unfoldable pub is_past : Option ℕ → ℕ → Bool
is_past none now = false
is_past (some t) now = leb t now

unfoldable pub is_due : ℕ → ℕ → Job → Bool
unfolding is_past
is_due now claim_timeout j = not j.deleted && elim j.status [
  | queued ↦ true
  | retry ↦ elim j.next_retry_time [ none ↦ true | some t ↦ leb t now ]
  | running ↦ is_past (Option.map (λ t. t + claim_timeout) j.claimed_at) now
  | success ↦ false
  | dead ↦ false
]

abbrev pub older : Job → Job → Bool
older x y = leb x.create_time y.create_time

module _ (locked : Job → Bool) (worker_id : String) (concurrency claim_timeout now : ℕ) where
  unfoldable pub claimed : List Job → List Job
  unfolding is_due
  claimed jobs =
      take concurrency
        (sort older (filter (λ j. is_due now claim_timeout j && not (locked j)) jobs))

  unfoldable pub claim_job : Job → Job
  claim_job j = record j {
    status = running;
    claimed_by = worker_id;
    claimed_at = some now;
    started_at = some now;
    attempts = j.attempts + 1;
  }

  -- `_claim_jobs`: the store, and the ids of the claimed jobs.
  unfoldable pub claim_jobs : Store → Store × List String
  unfolding claimed claim_job update_where
  claim_jobs s =
      let ids = map (λ (j : Job). j.id) (claimed s.jobs) in
      (record s { jobs = update_where (λ j. in_list j.id ids) claim_job s.jobs }, ids)

-- How `execute_ingestion` ends: with a number of chunks, or with an exception of the given text.
pub data Execution : Type 0 where
  indexed : ℕ → Execution
  raised : List ℕ → Execution

-- `_PermanentJobError` is told apart from the other exceptions.
pub data JobError : Type 0 where
  permanent transient : List ℕ → JobError

abbrev pub message : JobError → List ℕ
message (permanent m) = m
message (transient m) = m

abbrev pub is_permanent : JobError → Bool
is_permanent (permanent m) = true
is_permanent (transient m) = false

-- `n or 1`
abbrev pub or_one : ℕ → ℕ
or_one n = if eqb n 0 then 1 else n

abbrev pub delay_minutes : ℕ → ℕ
delay_minutes attempts = min 30 (2 ^ min (or_one attempts) 5)

unfoldable pub fail_job : ℕ → JobError → Job → Job
fail_job now error j =
    let ended = record j {
      error_message = some (take 2000 (message error));
      completed_at = some now;
    } in
    if is_permanent error || leb (or_one j.max_attempts) j.attempts
    then record ended { status = dead; next_retry_time = none }
    else record ended {
      status = retry;
      next_retry_time = some (now + 60 * delay_minutes j.attempts);
    }

abbrev pub doc_status_after : JobStatus → String
doc_status_after dead = "failed"
doc_status_after _ = "queued"

-- `_mark_failure`
unfoldable pub mark_failure : ℕ → String → JobError → Store → Store
unfolding fail_job find? update_job update_doc
mark_failure now job_id error s = elim (find? (λ j. j.id == job_id) s.jobs) [
  | none ↦ s
  | some j ↦
      update_doc j.doc_id
        (λ d. record d { status = doc_status_after (fail_job now error j).status })
        (update_job job_id (fail_job now error) s)
]

-- What the worker finds outside the database while it processes a job.
pub record Surroundings : Type 0 where
  pub is_object_source : String → Bool
  pub path_exists : String → Bool
  pub execute : Job → Execution
  pub missing_rows : List ℕ
  pub missing_file : String → List ℕ
  -- The document's pending generation as `execute_ingestion` leaves it.
  pub pending_after : Job → Document → String

-- The checks before the execution, and the execution.
unfoldable pub attempt : Surroundings → Store → Job → Execution ⊎ JobError
unfolding find?
attempt w s j = elim (find? (λ (k : KnowledgeBase). k.id == j.kb_id && not k.deleted) s.kbs) [
  | none ↦ inr (permanent w.missing_rows)
  | some kb ↦ elim (find? (λ (d : Document). d.id == j.doc_id && not d.deleted) s.docs) [
    | none ↦ inr (permanent w.missing_rows)
    | some doc ↦
        if not (w.is_object_source j.file_path) && not (w.path_exists j.file_path)
        then inr (permanent (w.missing_file j.file_path))
        else inl (w.execute j)
  ]
]

unfoldable pub finish_job : ℕ → ℕ → ℕ → Job → Job
finish_job now elapsed_ms chunks j = record j {
  status = success;
  completed_at = some now;
  duration_ms = some elapsed_ms;
  chunk_count = chunks;
  error_message = none;
}

-- A document behind a successful `execute_ingestion`.
abbrev pub indexed_doc : Surroundings → Job → ℕ → Document → Document
indexed_doc w j chunks d = record d {
  status = "success";
  chunk_count = chunks;
  pending_generation = w.pending_after j d;
}

-- `_process_job`: an exception rolls the session back to `s`, before the failure is recorded. On
-- success `execute_ingestion` has changed the document.
unfoldable pub process_job : Surroundings → ℕ → ℕ → String → Store → Store
unfolding attempt finish_job mark_failure
process_job w now elapsed_ms job_id s = elim (find? (λ j. j.id == job_id) s.jobs) [
  | none ↦ s
  | some j ↦ elim (attempt w s j) [
    | inr error ↦ mark_failure now job_id error s
    | inl (raised m) ↦ mark_failure now job_id (transient m) s
    | inl (indexed chunks) ↦
        update_job job_id (finish_job now elapsed_ms chunks)
          (update_doc j.doc_id (indexed_doc w j chunks) s)
  ]
]
