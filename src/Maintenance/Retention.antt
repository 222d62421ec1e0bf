-- ===== src/Maintenance/Retention.antt =====
-- RetentionWorker.run_once. Times are days, the lock's answer and the vector store are arguments. Of each
-- table the columns that the code reads or writes.
use flavor_rag.Prelude.{
  ℕ, String, List, Bool, Option, none, some, true, false, if◌then◌else◌, ◌&&◌, not, in_list, ltb,
  ◌+◌, max, ◌⊎◌, inl, inr, [], ◌∷◌, length, map, filter,
}
use flavor_rag.Indexes.Lifecycle.{GenerationStatus, retired, failed}

pub record TraceRun : Type 0 where
  pub id : String
  pub create_time : ℕ

pub record TraceNode : Type 0 where
  pub id : String
  pub trace_run_id : String

-- A nullable JSON column: NULL, the JSON value null, or another value. The ORM stores JSON null for None.
pub data JsonColumn : Type 0 where
  sql_null json_null : JsonColumn
  stored : List ℕ → JsonColumn

pub record OldRun : Type 0 where
  pub id : String
  pub create_time : ℕ
  pub results_json : JsonColumn

-- `removed` is set where the status is "DELETED" and the row deleted.
pub record OldGeneration : Type 0 where
  pub collection_name : String
  pub status : GenerationStatus
  pub update_time : ℕ
  pub removed : Bool

pub record ChangeLog : Type 0 where
  pub id : String
  pub create_time : ℕ

pub record Kept : Type 0 where
  pub runs : List TraceRun
  pub nodes : List TraceNode
  pub evaluations : List OldRun
  pub generations : List OldGeneration
  pub logs : List ChangeLog

pub record Retention : Type 0 where
  pub trace_retention_days : ℕ
  pub index_retired_retention_days : ℕ
  pub audit_retention_days : ℕ

-- `time < now - timedelta(days=max(1, days))`
abbrev pub is_old : ℕ → ℕ → ℕ → Bool
is_old now days time = ltb (time + max 1 days) now

abbrev pub is_dropped : ℕ → ℕ → OldGeneration → Bool
is_dropped now days g =
    elim g.status [ retired ↦ true | failed ↦ true | _ ↦ false ]
    && is_old now days g.update_time
    && not g.removed

-- `results_json IS NOT NULL`
abbrev pub has_payload : OldRun → Bool
has_payload r = elim r.results_json [ sql_null ↦ false | json_null ↦ true | stored json ↦ true ]

module _ {V : Type 0} (drop_collection : V → String → List ℕ ⊎ V) where
  -- The collections are dropped one by one; an exception ends the round, without a commit.
  unfoldable pub drop_collections : V → List OldGeneration → V × Option (List ℕ)
  drop_collections v [] = (v, none)
  drop_collections v (g ∷ generations) =
      elim (drop_collection v g.collection_name) as (λ r. V × Option (List ℕ)) [
        | inl e ↦ (v, some e)
        | inr w ↦ drop_collections w generations
      ]

  -- The tables after the round, and how many rows it removed or cleared.
  unfoldable pub purge : Retention → ℕ → Kept → Kept × ℕ
  purge settings now db =
      let days = settings.trace_retention_days in
      let trace_ids =
        map (λ (r : TraceRun). r.id)
          (filter (λ (r : TraceRun). is_old now days r.create_time) db.runs) in
      let old_run = λ (r : OldRun). is_old now days r.create_time && has_payload r in
      let dropped = is_dropped now settings.index_retired_retention_days in
      let old_log = λ (l : ChangeLog). is_old now settings.audit_retention_days l.create_time in
      (
        record {
          runs = filter (λ (r : TraceRun). not (in_list r.id trace_ids)) db.runs;
          nodes = filter (λ (n : TraceNode). not (in_list n.trace_run_id trace_ids)) db.nodes;
          evaluations =
              map (λ (r : OldRun). if old_run r then record r { results_json = json_null } else r)
                db.evaluations;
          generations =
              map (λ (g : OldGeneration). if dropped g then record g { removed = true } else g)
                db.generations;
          logs = filter (λ (l : ChangeLog). not (old_log l)) db.logs;
        },
        length trace_ids
            + length (filter old_run db.evaluations)
            + length (filter dropped db.generations)
            + length (filter old_log db.logs),
      )

  -- The round: the vector store, and the exception or the tables with the number of rows.
  unfoldable pub run_retention : Bool → Retention → ℕ → V → Kept → V × (List ℕ ⊎ (Kept × ℕ))
  unfolding drop_collections purge
  run_retention acquired settings now v db =
      let dropped = filter (is_dropped now settings.index_retired_retention_days) db.generations in
      let (w, failure) = drop_collections v dropped in
      if acquired
      then (
        w,
        elim failure as (λ o. List ℕ ⊎ (Kept × ℕ)) [
          | some e ↦ inl e
          | none ↦ inr (purge settings now db)
        ],
      )
      else (v, inr (db, 0))
