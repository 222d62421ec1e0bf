-- ===== src/Maintenance/Tests.antt =====
-- Runs of the watchdog and of the retention.
use flavor_rag.Prelude.{
  ℕ, String, List, Option, none, some, true, false, ◌⊎◌, inr, ◌≡◌, [], ◌∷◌, map, get_elem?, refl,
}
use flavor_rag.Indexes.Lifecycle.{active, retired}
use flavor_rag.Maintenance.Watchdog.{IngestionTask, sweep, Swept, sweep_lem}
use flavor_rag.Maintenance.Retention.{Kept, Retention, run_retention, stored, json_null}

abbrev task : Option ℕ → IngestionTask
task heartbeat = record {
  id = "t";
  status = "running";
  deleted = false;
  heartbeat_at = heartbeat;
  started_at = some 0;
  create_time = 0;
  sla_ms = 0;
  completed_at = none;
  total_duration_ms = none;
  error_message = "";
  failure_type = "";
}

-- A task that never had a heartbeat is not timed out, however late it is.
sweep-stale :
    map
      (λ (t : IngestionTask). t.status)
      ((sweep 2000000 (task (some 100) ∷ task (some 1900000) ∷ task none ∷ [])).0)
    ≡ "timeout" ∷ "running" ∷ "running" ∷ []
unfolding sweep
sweep-stale = refl

sweep_lem_example :
    (u : IngestionTask) × (get_elem? ((sweep 2000000 (task (some 100) ∷ task none ∷ [])).0) 0
      ≡ some u)
    × Swept 2000000 (task (some 100)) u
sweep_lem_example = sweep_lem 2000000 (task (some 100) ∷ task none ∷ []) 0 (task (some 100)) refl

abbrev settings : Retention
settings = record {
  trace_retention_days = 30;
  index_retired_retention_days = 7;
  audit_retention_days = 180;
}

abbrev tables : Kept
tables = record {
  runs = record { id = "r1"; create_time = 10 } ∷ record { id = "r2"; create_time = 90 } ∷ [];
  nodes =
      record { id = "n1"; trace_run_id = "r1" } ∷ record { id = "n2"; trace_run_id = "r2" } ∷ [];
  evaluations = record { id = "e"; create_time = 10; results_json = stored (123 ∷ []) } ∷ [];
  generations =
      record { collection_name = "c"; status = retired; update_time = 10; removed = false }
      ∷ record { collection_name = "d"; status = active; update_time = 10; removed = false }
      ∷ [];
  logs = record { id = "l"; create_time = 10 } ∷ [];
}

abbrev drop : List String → String → List ℕ ⊎ List String
drop dropped name = inr (name ∷ dropped)

-- A trace with its node, a payload and a collection go; the log is not old enough.
run_retention-tables : run_retention drop true settings 100 [] tables ≡ (
  "c" ∷ [],
  inr (
    record {
      runs = record { id = "r2"; create_time = 90 } ∷ [];
      nodes = record { id = "n2"; trace_run_id = "r2" } ∷ [];
      evaluations = record { id = "e"; create_time = 10; results_json = json_null } ∷ [];
      generations =
          record { collection_name = "c"; status = retired; update_time = 10; removed = true }
          ∷ record { collection_name = "d"; status = active; update_time = 10; removed = false }
          ∷ [];
      logs = record { id = "l"; create_time = 10 } ∷ [];
    },
    3,
  ),
)
unfolding run_retention
run_retention-tables = refl
