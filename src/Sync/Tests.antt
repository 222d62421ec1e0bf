-- ===== src/Sync/Tests.antt =====
-- Attempts at the cleanup of one document.
use flavor_rag.Prelude.Sort.{sort}
use flavor_rag.Prelude.{
  String, List, [], ◌∷◌, Option, none, some, if◌then◌else◌, ◌==◌, ◌≡◌, refl, false,
}
use flavor_rag.Jobs.Enqueue.{join_by}
use flavor_rag.Sync.Cleanup.{
  SyncJob, retry, SyncBase, delete_document, retry_job, conclude, operations,
}
use flavor_rag.Sync.Settled.{Settled, started, retry_job-Settled}

abbrev in_order : List String → List String
in_order names = names

abbrev search_down : String → SyncJob → Option String
search_down name job = if name == "elasticsearch" then some "ConnectionError" else none

abbrev all_up : String → SyncJob → Option String
all_up name job = none

abbrev base : SyncBase
base = record { id = "k1"; tenant_id = "t1" }

abbrev job : SyncJob
job = record {
  id = "s1";
  tenant_id = "t1";
  kb_id = "k1";
  doc_id = "d1";
  chunk_ids = "c1" ∷ [];
  storage_keys = [];
  source_location = "";
  channel_status = [];
  status = retry;
  attempts = 1;
  last_error = none;
  next_retry_time = some 60;
  create_time = 0;
  deleted = false;
}

first_attempt :
    (delete_document in_order search_down "s1" 0 base "d1"
      ("c2" ∷ "c1" ∷ "c2" ∷ [])
      []
      "").last_error
    ≡ some "elasticsearch"
unfolding delete_document conclude operations join_by sort
first_attempt = refl

retry_job-Settled_example :
    Settled in_order search_down
      (λ names n. (λ m. m, λ m. m))
      100
      60
      (started in_order search_down (λ names n. (λ m. m, λ m. m)) job)
      (retry_job in_order search_down 100 job)
retry_job-Settled_example =
    retry_job-Settled in_order search_down (λ names n. (λ m. m, λ m. m)) 100 job
