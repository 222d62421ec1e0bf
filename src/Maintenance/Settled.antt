-- ===== src/Maintenance/Settled.antt =====
-- What a round of the retention leaves, and what a second one counts.
use flavor_rag.Prelude.{
  ℕ, String, List, Bool, false, if◌then◌else◌, ◌&&◌, All, ◌⊎◌, map, filter, ◌≡◌,
}
use flavor_rag.Maintenance.Retention.{
  json_null, TraceRun, OldRun, OldGeneration, ChangeLog, Kept, Retention, is_old, is_dropped,
  has_payload, json_null,
}

module _ {V : Type 0} (drop_collection : V → String → List ℕ ⊎ V) (settings : Retention)
    (now : ℕ) where
  abbrev old_trace : TraceRun → Bool
  old_trace r = is_old now settings.trace_retention_days r.create_time

  abbrev old_run : OldRun → Bool
  old_run r = is_old now settings.trace_retention_days r.create_time && has_payload r

  abbrev dropped : OldGeneration → Bool
  dropped g = is_dropped now settings.index_retired_retention_days g

  abbrev old_log : ChangeLog → Bool
  old_log l = is_old now settings.audit_retention_days l.create_time

  -- No row of the tables but those of evaluations is old enough to be removed.
  abbrev pub IsSettled : Kept → Type 0
  IsSettled db =
      All (λ (r : TraceRun). is_old now settings.trace_retention_days r.create_time ≡ false) db.runs
      × All (λ (g : OldGeneration). is_dropped now settings.index_retired_retention_days g ≡ false)
          db.generations
      × All (λ (l : ChangeLog). is_old now settings.audit_retention_days l.create_time ≡ false)
          db.logs

  trace_ids : List TraceRun → List String
  trace_ids runs = map (λ (r : TraceRun). r.id) (filter old_trace runs)

  -- The evaluations behind a round.
  abbrev cleared : List OldRun → List OldRun
  cleared runs =
      map (λ (r : OldRun). if old_run r then record r { results_json = json_null } else r) runs
