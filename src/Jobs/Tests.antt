-- ===== src/Jobs/Tests.antt =====
-- Runs of the job code on small stores.
use flavor_rag.Prelude.{
  ℕ, String, Bool, true, false, List, [], ◌∷◌, none, some, ◌≡◌, refl, arith, All, ◌==◌, in_list,
  ◌+◌,
}
use flavor_rag.Prelude.Sort.{sort}
use flavor_rag.Jobs.Store.{
  Job, JobStatus, queued, running, retry, success, dead, Document, KnowledgeBase, Store, find?,
}
use flavor_rag.Jobs.Enqueue.{Request, Answers, enqueue_ingestion_job}
use flavor_rag.Jobs.Worker.{raised, claim_jobs, process_job, Surroundings}
use flavor_rag.Jobs.Claims.{claim_jobs-exclusive, WorkerEvent, Meanwhile, happen_all, claims, ends}
use flavor_rag.Jobs.Failures.{process_job-Processed, Processed}
use flavor_rag.Jobs.Lifetime.{failing_rounds, queued_rounds-dead}
use flavor_rag.Jobs.Crashes.{crash_rounds, crash_rounds_lem}
use flavor_rag.Jobs.Idempotence.{enqueue_replay, enqueue-IsUnique, IsUnique}

abbrev job : String → String → JobStatus → ℕ → ℕ → Job
job name key now_is attempts time = record {
  id = name;
  idempotency_key = key;
  tenant_id = "default";
  kb_id = "k1";
  doc_id = "d1";
  pipeline_id = "p1";
  source_type = "upload";
  file_path = "s3://files/d1";
  chunk_strategy = "fixed";
  chunk_size = 512;
  overlap_size = 50;
  operation = "ingest";
  generation = "g_1";
  status = now_is;
  attempts = attempts;
  max_attempts = 3;
  next_retry_time = none;
  claimed_by = "";
  claimed_at = none;
  started_at = none;
  completed_at = none;
  duration_ms = none;
  chunk_count = 0;
  error_message = none;
  created_by = "u1";
  create_time = time;
  deleted = false;
}

abbrev doc : Document
doc = record {
  id = "d1";
  kb_id = "k1";
  doc_name = "manual";
  content_hash = "h1";
  file_url = "";
  status = "queued";
  chunk_count = 0;
  pending_generation = "";
  deleted = false;
}

abbrev kb : KnowledgeBase
kb = record { id = "k1"; pipeline_id = "p1"; deleted = false }

abbrev jobs : List Job
jobs = job "j1" "a" queued 0 7 ∷ job "j2" "b" retry 1 3 ∷ job "j3" "c" success 1 1 ∷ []

abbrev store : Store
store = record { jobs = jobs; docs = doc ∷ []; kbs = kb ∷ [] }

abbrev surroundings : Surroundings
surroundings = record {
  is_object_source = λ p. true;
  path_exists = λ p. false;
  execute = λ j. raised (101 ∷ []);
  missing_rows = 1 ∷ [];
  missing_file = λ p. 2 ∷ [];
  pending_after = λ j d. "";
}

abbrev request : Request
request = record {
  kb = kb;
  doc = doc;
  file_path = "/tmp/d1";
  source_type = "upload";
  strategy = "fixed";
  chunk_size = 512;
  overlap = 50;
  user_id = "u1";
  tenant_id = "";
  pipeline_id = "p1";
  operation = "ingest";
}

abbrev answers : String → Answers
answers name = record {
  durable_path = "s3://files/d1";
  generation_id = name;
  job_id = name;
  max_attempts = 3;
  now = 9;
}

abbrev unlocked : Job → Bool
unlocked j = false

-- The older of the two waiting jobs is claimed first, and a second worker takes the other.
claims_oldest : (claim_jobs unlocked "w1" 1 600 10 store).1 ≡ "j2" ∷ []
unfolding claim_jobs sort
claims_oldest = refl

claims_next :
    (claim_jobs unlocked "w2" 5 600 20 (claim_jobs unlocked "w1" 1 600 10 store).0).1 ≡ "j1" ∷ []
unfolding claim_jobs sort
claims_next = refl

-- Between the two claims another worker tries, and a job that was not claimed ends.
abbrev between_claims : List WorkerEvent
between_claims = claims unlocked "w3" 5 15 ∷ ends surroundings 18 5 "j1" ∷ []

between_claims-Meanwhile :
    All (Meanwhile (10 + 600) (claim_jobs unlocked "w1" 1 600 10 store).1) between_claims
between_claims-Meanwhile = rw claims_oldest (omega arith, (refl, tt))

claim_jobs-exclusive_example :
    let (s', ids) = claim_jobs unlocked "w1" 1 600 10 store in
    All
      (λ i. in_list i ids ≡ false)
      (claim_jobs unlocked "w2" 5 600 20 (happen_all 600 between_claims s')).1
claim_jobs-exclusive_example =
    claim_jobs-exclusive 600 unlocked unlocked "w1" "w2" 1 5 10 20 between_claims store
      between_claims-Meanwhile (omega arith)

present : find? (λ x. x.id == "j1") jobs ≡ some (job "j1" "a" queued 0 7)
unfolding find?
present = refl

process_job-Processed_example :
    Processed surroundings 10 store
      (process_job surroundings 10 5 "j1" store)
      (job "j1" "a" queued 0 7)
process_job-Processed_example =
    process_job-Processed surroundings 10 5 store (job "j1" "a" queued 0 7) present

abbrev rounds : List (ℕ × List ℕ)
rounds = (0, []) ∷ (1800, []) ∷ (3600, []) ∷ []

queued_rounds-dead_example :
    (failing_rounds unlocked "w1" 1 600 rounds (job "j1" "a" queued 0 7)).status ≡ dead
queued_rounds-dead_example =
    queued_rounds-dead unlocked "w1" 1 600 rounds (job "j1" "a" queued 0 7) refl refl (omega arith)
      (omega arith, (omega arith, (omega arith, tt))) (omega arith)

abbrev hash : String → String
hash s = s

abbrev shown : ℕ → String
shown n = "n"

enqueue_replay_example :
    let (s', first) = enqueue_ingestion_job hash shown request (answers "x") store in
    let (s'', again) = enqueue_ingestion_job hash shown request (answers "y") s' in
    (again ≡ first) × (s''.jobs ≡ s'.jobs)
enqueue_replay_example = enqueue_replay hash shown request (answers "x") (answers "y") store

enqueue-IsUnique_example :
    IsUnique
      (enqueue_ingestion_job hash shown request
        (answers "x")
        (record { jobs = []; docs = doc ∷ []; kbs = [] })).0
enqueue-IsUnique_example =
    enqueue-IsUnique hash shown request (answers "x")
      (record { jobs = []; docs = doc ∷ []; kbs = [] }) (λ k. omega arith)

crash_rounds_lem_example :
    let j' =
      crash_rounds unlocked "w1" 1 600 (0 ∷ 700 ∷ 1400 ∷ 2000 ∷ []) (job "j1" "a" queued 0 7) in
    (j'.status ≡ running) × (j'.attempts ≡ 0 + 4)
crash_rounds_lem_example =
    crash_rounds_lem unlocked "w1" 1 600 0 (700 ∷ 1400 ∷ 2000 ∷ []) (job "j1" "a" queued 0 7) refl
      refl (omega arith, (omega arith, (omega arith, tt)))
