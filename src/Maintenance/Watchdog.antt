-- ===== src/Maintenance/Watchdog.antt =====
-- IngestionWatchdog.sweep. Times are milliseconds.
use flavor_rag.Prelude.{
  ℕ, suc, zero, String, List, Bool, Option, none, some, true, false, if◌then◌else◌, ◌&&◌, not, ◌==◌,
  eq_iff, eqb, ltb, leb, ltb→lt, leb→le, ◌+◌, ◌-◌, ◌*◌, ◌≤◌, ◌<◌, ◌≡◌, ◌⊎◌, inl, inr, max, [], ◌∷◌,
  length, map, filter, get_elem?, arith, Bool-cases, refl, sym, ◌∙◌, lt→ltb, le→leb, subst,
  Option-cases, ap,
}

-- `sla_ms` is 0 where it is not set; `failure_type` is what the watchdog writes into `logs_json`.
pub record IngestionTask : Type 0 where
  pub id : String
  pub status : String
  pub deleted : Bool
  pub heartbeat_at : Option ℕ
  pub started_at : Option ℕ
  pub create_time : ℕ
  pub sla_ms : ℕ
  pub completed_at : Option ℕ
  pub total_duration_ms : Option ℕ
  pub error_message : String
  pub failure_type : String

-- `heartbeat_at < cutoff`, which is not true of NULL.
abbrev pub is_before : ℕ → Option ℕ → Bool
is_before now none = false
is_before now (some h) = ltb (h + 900000) now

-- The condition of the query.
unfoldable pub is_stale : ℕ → IngestionTask → Bool
is_stale now t = not t.deleted && (t.status == "running") && is_before now t.heartbeat_at

-- `task.sla_ms or 300_000`
abbrev pub promised_ms : IngestionTask → ℕ
promised_ms t = if eqb t.sla_ms 0 then 300000 else t.sla_ms

-- `max((task.sla_ms or 300_000) * 2, 900_000)`
unfoldable pub timeout_ms : IngestionTask → ℕ
timeout_ms t = max (promised_ms t * 2) 900000

-- `task.heartbeat_at or task.started_at or task.create_time`
abbrev pub last_sign : IngestionTask → ℕ
last_sign t = elim t.heartbeat_at [
  | some h ↦ h
  | none ↦ elim t.started_at [ some s ↦ s | none ↦ t.create_time ]
]

unfoldable pub is_expired : ℕ → IngestionTask → Bool
unfolding timeout_ms
is_expired now t = leb (last_sign t + timeout_ms t) now

unfoldable pub time_out : ℕ → IngestionTask → IngestionTask
unfolding timeout_ms
time_out now t = record t {
  status = "timeout";
  completed_at = some now;
  total_duration_ms = some (elim t.started_at [ some s ↦ now - s | none ↦ timeout_ms t ]);
  error_message = "watchdog_timeout: task heartbeat expired";
  failure_type = "watchdog_timeout";
}

unfoldable pub sweep_task : ℕ → IngestionTask → IngestionTask
unfolding is_stale is_expired time_out
sweep_task now t = if is_stale now t && is_expired now t then time_out now t else t

-- The tasks after the sweep, and how many have timed out.
unfoldable pub sweep : ℕ → List IngestionTask → List IngestionTask × ℕ
unfolding sweep_task is_stale is_expired
sweep now tasks =
    (map (sweep_task now) tasks, length (filter (λ t. is_stale now t && is_expired now t) tasks))

-- A live running task whose heartbeat is older than a quarter of an hour and not younger than twice the
-- time that it was promised to take.
abbrev pub Expired : ℕ → IngestionTask → Type 0
Expired now t =
    (t.deleted ≡ false)
    × (t.status ≡ "running")
    × ((h : ℕ) × (t.heartbeat_at ≡ some h) × (h + 900000 < now) × (h + 2 * promised_ms t ≤ now))

-- The parts of a conjunction.
both_true : (a b : Bool) → (a && b) ≡ true → (a ≡ true) × (b ≡ true)
both_true true b h = (refl, h)
both_true false b h = cc

is_before-some :
    (now : ℕ) (o : Option ℕ) → is_before now o ≡ true → (h : ℕ) × (o ≡ some h) × (h + 900000 < now)
is_before-some now none e = cc
is_before-some now (some h) e = (h, refl, ltb→lt (h + 900000) now e)

last_sign-heartbeat : (t : IngestionTask) (h : ℕ) → t.heartbeat_at ≡ some h → last_sign t ≡ h
last_sign-heartbeat t h q = rw q refl

stale→Expired :
    (now : ℕ) (t : IngestionTask) → (is_stale now t && is_expired now t) ≡ true → Expired now t
unfolding is_stale is_expired timeout_ms
stale→Expired now t e =
    let (stale, late) = both_true (is_stale now t) (is_expired now t) e in
    let (live, beat) =
      both_true (not t.deleted && (t.status == "running")) (is_before now t.heartbeat_at) stale in
    let (kept, runs) = both_true (not t.deleted) (t.status == "running") live in
    let (h, q, old) = is_before-some now t.heartbeat_at beat in
    (
      ground (arith, kept),
      (eq_iff t.status "running").0 runs,
      (
        h,
        q,
        old,
        omega (arith, leb→le (last_sign t + timeout_ms t) now late, last_sign-heartbeat t h q),
      ),
    )

Expired→stale :
    (now : ℕ) (t : IngestionTask) → Expired now t → (is_stale now t && is_expired now t) ≡ true
unfolding is_stale is_expired timeout_ms
Expired→stale now t (kept, runs, (h, q, old, late)) =
    let before : is_before now t.heartbeat_at ≡ true = rw q (lt→ltb (h + 900000) now old) in
    let over : leb (last_sign t + timeout_ms t) now ≡ true =
      le→leb (last_sign t + timeout_ms t) now
        (omega (arith, late, old, last_sign-heartbeat t h q)) in
    let named : (t.status == "running") ≡ true = (eq_iff t.status "running").1 runs in
    all_three t.deleted (t.status == "running") (is_before now t.heartbeat_at)
      (leb (last_sign t + timeout_ms t) now) kept named before over
  where
    all_three :
        (a b c d : Bool)
        → a ≡ false
        → b ≡ true
        → c ≡ true
        → d ≡ true
        → (not a && b && c && d) ≡ true
    all_three a b c d p q r s = rw (p, q, r, s) refl

-- What the sweep writes into a task: the status, the time, the reason, and how long the task took, from
-- its start or else the timeout. The other columns stay.
pub record TimedOut (now : ℕ) (t u : IngestionTask) : Type 0 where
  pub status : u.status ≡ "timeout"
  pub completed : u.completed_at ≡ some now
  pub reason : u.failure_type ≡ "watchdog_timeout"
  pub message : u.error_message ≡ "watchdog_timeout: task heartbeat expired"
  pub duration :
      ((s : ℕ) × (t.started_at ≡ some s) × (u.total_duration_ms ≡ some (now - s)))
      ⊎ ((t.started_at ≡ none) × (u.total_duration_ms ≡ some (max (2 * promised_ms t) 900000)))
  pub same_id : u.id ≡ t.id
  pub same_deleted : u.deleted ≡ t.deleted
  pub same_times :
      (u.heartbeat_at ≡ t.heartbeat_at)
      × (u.started_at ≡ t.started_at)
      × (u.create_time ≡ t.create_time)
      × (u.sla_ms ≡ t.sla_ms)

time_out-TimedOut : (now : ℕ) (t : IngestionTask) → TimedOut now t (time_out now t)
unfolding time_out timeout_ms
time_out-TimedOut now t = record {
  status = refl;
  completed = refl;
  reason = refl;
  message = refl;
  duration = elim (Option-cases t.started_at) [
    | inl e ↦ inr (e, rw e (ap some (omega arith)))
    | inr (s, e) ↦ inl (s, e, rw e refl)
  ];
  same_id = refl;
  same_deleted = refl;
  same_times = (refl, refl, refl, refl);
}

-- The task before and after a sweep.
abbrev pub Swept : ℕ → IngestionTask → IngestionTask → Type 0
Swept now t u = (Expired now t × TimedOut now t u) ⊎ ((Expired now t → ⊥) × (u ≡ t))

sweep_task-Swept : (now : ℕ) (t : IngestionTask) → Swept now t (sweep_task now t)
unfolding sweep_task
sweep_task-Swept now t = elim (Bool-cases (is_stale now t && is_expired now t)) [
  | inl e ↦ rw e (inl (stale→Expired now t e, time_out-TimedOut now t))
  | inr e ↦ rw e (inr (λ k. cc (sym e ∙ Expired→stale now t k), refl))
]

-- What a sweep does to the task at a place in the table: an expired one gets the status "timeout",
-- the time of the sweep, the reason and its duration, and keeps its other columns, and every other task
-- is unchanged; in particular, one that never had a heartbeat.
pub sweep_lem :
    (now : ℕ) (tasks : List IngestionTask) (i : ℕ) (t : IngestionTask)
    → get_elem? tasks i ≡ some t
    → (u : IngestionTask) × (get_elem? ((sweep now tasks).0) i ≡ some u) × Swept now t u
unfolding sweep
sweep_lem now [] i t h = cc
sweep_lem now (x ∷ tasks) zero t h =
    let same : x ≡ t = cc h in
    (
      sweep_task now x,
      refl,
      subst (λ k. Swept now k (sweep_task now x)) same (sweep_task-Swept now x),
    )
sweep_lem now (x ∷ tasks) (suc i) t h = sweep_lem now tasks i t h
