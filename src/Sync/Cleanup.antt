-- ===== src/Sync/Cleanup.antt =====
-- `delete_document`, `retry_pending` and `_retry_job`. What an operation on an external index ends with
-- is an argument, the name of the exception's type or `none`; so is the order in which the operations
-- end, which is the order of the statuses. Times are seconds.
use flavor_rag.Prelude.{
  ℕ, String, List, [], ◌∷◌, ◌++◌, Bool, true, false, Option, none, some, if◌then◌else◌, ◌==◌, ◌&&◌,
  not, leb, ◌+◌, ◌*◌, ◌^◌, min, length, take, filter, map, in_list, truthy,
}
use Prim.Native.String.{compare}
use Prim.Native.Nat.{Ordering}
use flavor_rag.Prelude.Sort.{sort}
use flavor_rag.Jobs.Store.{find?, update_where}
use flavor_rag.Jobs.Enqueue.{join_by}

pub data SyncStatus : Type 0 where
  pending running retry success failed : SyncStatus

pub record SyncJob : Type 0 where
  pub id : String
  pub tenant_id : String
  pub kb_id : String
  pub doc_id : String
  pub chunk_ids : List String
  pub storage_keys : List String
  pub source_location : String
  pub channel_status : List (String × Option String)
  pub status : SyncStatus
  pub attempts : ℕ
  pub last_error : Option String
  pub next_retry_time : Option ℕ
  pub create_time : ℕ
  pub deleted : Bool

pub record SyncBase : Type 0 where
  pub id : String
  pub tenant_id : String

-- `sorted({...})`
abbrev pub at_most : String → String → Bool
at_most s t = elim (compare s t) [ Ordering.gt ↦ false | _ ↦ true ]

abbrev pub distinct : List String → List String
distinct [] = []
distinct (s ∷ ss) = if in_list s ss then distinct ss else s ∷ distinct ss

abbrev pub sorted_set : List String → List String
sorted_set ss = sort at_most (distinct ss)

abbrev pub is_empty : List String → Bool
is_empty [] = true
is_empty (s ∷ ss) = false

-- The operations of an attempt, by the names of their channels.
unfoldable pub operations : SyncJob → List String
operations j =
    ("milvus" ∷ "elasticsearch" ∷ "graph" ∷ [])
    ++ (if is_empty j.storage_keys then [] else "object_storage" ∷ [])
    ++ (if truthy j.source_location then "source_storage" ∷ [] else [])

abbrev pub has_failed : String × Option String → Bool
has_failed (name, none) = false
has_failed (name, some error) = true

abbrev pub name_of : String × Option String → String
name_of (name, error) = name

-- The end of an attempt with the given statuses; a failed job is to be tried again after the delay.
unfoldable pub conclude : ℕ → ℕ → List (String × Option String) → SyncJob → SyncJob
unfolding join_by
conclude now delay_minutes statuses j = elim (filter has_failed statuses) [
  | [] ↦ record j {
    channel_status = statuses;
    status = success;
    last_error = none;
    next_retry_time = none;
  }
  | f ∷ fs ↦ record j {
    channel_status = statuses;
    status = retry;
    last_error = some (join_by "," (map name_of (f ∷ fs)));
    next_retry_time = some (now + 60 * delay_minutes);
  }
]

module _ (ended : List String → List String) (run : String → SyncJob → Option String) where
  abbrev pub statuses_of : SyncJob → List (String × Option String)
  statuses_of j = map (λ name. (name, run name j)) (ended (operations j))

  -- The job that `delete_document` adds and returns.
  unfoldable pub delete_document :
      String → ℕ → SyncBase → String → List String → List String → String → SyncJob
  unfolding conclude operations
  delete_document job_id now kb doc_id chunks assets source_location =
      let job : SyncJob = record {
        id = job_id;
        tenant_id = if truthy kb.tenant_id then kb.tenant_id else "default";
        kb_id = kb.id;
        doc_id = doc_id;
        chunk_ids = sorted_set chunks;
        storage_keys = sorted_set (filter truthy assets);
        source_location = source_location;
        channel_status = [];
        status = running;
        attempts = 1;
        last_error = none;
        next_retry_time = none;
        create_time = now;
        deleted = false;
      } in
      conclude now 1 (statuses_of job) job

  -- `_retry_job`
  unfoldable pub retry_job : ℕ → SyncJob → SyncJob
  unfolding conclude operations
  retry_job now j =
      let job = record j { status = running; attempts = j.attempts + 1 } in
      conclude now (min 60 (2 ^ min job.attempts 6)) (statuses_of job) job

  abbrev pub is_waiting : SyncStatus → Bool
  is_waiting pending = true
  is_waiting retry = true
  is_waiting _ = false

  abbrev pub is_time : Option ℕ → ℕ → Bool
  is_time none now = true
  is_time (some t) now = leb t now

  unfoldable pub due_jobs : (SyncJob → Bool) → ℕ → ℕ → List SyncJob → List SyncJob
  due_jobs locked now limit jobs = take limit (
      sort (λ x y. leb x.create_time y.create_time)
        (filter
          (λ (j : SyncJob).
            not j.deleted && is_waiting j.status && is_time j.next_retry_time now && not (locked j))
          jobs))

  -- What the loop of `retry_pending` does with one job.
  unfoldable pub retry_one : ℕ → List SyncBase → SyncJob → SyncJob
  unfolding retry_job find?
  retry_one now kbs j =
      elim (find? (λ (k : SyncBase). k.id == j.kb_id && k.tenant_id == j.tenant_id) kbs) [
        | none ↦ record j { status = failed; last_error = some "knowledge_base_missing" }
        | some kb ↦ retry_job now j
      ]

  abbrev pub has_succeeded : SyncJob → Bool
  has_succeeded j = elim j.status [ success ↦ true | _ ↦ false ]

  -- The table afterwards, and how many jobs have been completed.
  unfoldable pub retry_pending :
      (SyncJob → Bool) → ℕ → ℕ → List SyncBase → List SyncJob → List SyncJob × ℕ
  unfolding due_jobs retry_one update_where
  retry_pending locked now limit kbs jobs =
      let chosen = due_jobs locked now limit jobs in
      let ids = map (λ (j : SyncJob). j.id) chosen in
      (
        update_where (λ (j : SyncJob). in_list j.id ids) (retry_one now kbs) jobs,
        length (filter has_succeeded (map (retry_one now kbs) chosen)),
      )
