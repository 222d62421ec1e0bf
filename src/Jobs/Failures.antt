-- ===== src/Jobs/Failures.antt =====
-- How a job ends when it is processed, and what becomes of its document and of the other jobs.
use flavor_rag.Prelude.{
  ◌∷◌, [], String, ℕ, ◌≡◌, List, ◌⊎◌, ◌==◌, All, inl, if◌then◌else◌, true, none, inr, arith,
  Bool-cases, ◌≤◌, some, eq_iff, ◌^◌, min, false, ◌||◌, suc, ◌<◌, leb, ◌+◌, zero, ◌*◌, eq_refl,
  refl, filter, not, ap,
}
use mathlib.Core.Option
use flavor_rag.Jobs.Store.{
  Job, JobStatus, retry, success, dead, Document, Store, find?, update_where, update_job,
  update_doc,
}
use flavor_rag.Jobs.Worker.{
  Execution, indexed, raised, JobError, transient, is_permanent, fail_job, finish_job, mark_failure,
  attempt, process_job, Surroundings, delay_minutes, or_one, doc_status_after, indexed_doc,
}

module _ {A : Type 0} (key : A → String) (f : A → A) (keeps : (a : A) → key (f a) ≡ key a) where
  -- To look up a row by its key after the row `i` has been changed.
  pub find?-update_where :
      (i k : String) (xs : List A)
      → find? (λ x. key x == k) (update_where (λ x. key x == i) f xs)
        ≡ (if i == k then Option.map f (find? (λ x. key x == k) xs) else find? (λ x. key x == k) xs)
  unfolding find? update_where
  find?-update_where i k [] = ground arith
  find?-update_where i k (x ∷ xs) =
      ground
        (arith, find?-update_where i k xs, keeps x, eq_iff (key x) i, eq_iff (key x) k, eq_iff i k)

module _ {A : Type 0} (key : A → String) (f : A → A) (P : A → Type 0) where
  update_where-All :
      (i : String) (xs : List A)
      → ((a : A) → (key (f a) == i) ≡ true → P (f a))
      → All (λ x. (key x == i) ≡ true → P x) (update_where (λ x. key x == i) f xs)
  unfolding update_where
  update_where-All i [] h = tt
  update_where-All i (x ∷ xs) h = elim (Bool-cases (key x == i)) [
    | inl e ↦ rw e (h x, update_where-All i xs h)
    | inr e ↦ rw e (λ k. absurd (cc), update_where-All i xs h)
  ]

  update_where-others :
      (i : String) (xs : List A)
      → ((a : A) → key (f a) ≡ key a)
      → filter (λ x. not (key x == i)) (update_where (λ x. key x == i) f xs)
        ≡ filter (λ x. not (key x == i)) xs
  unfolding update_where
  update_where-others i [] h = refl
  update_where-others i (x ∷ xs) h = elim (Bool-cases (key x == i)) [
    | inl e ↦ rw (e, h x, e) (update_where-others i xs h)
    | inr e ↦ rw (e, e) (ap (λ l. x ∷ l) (update_where-others i xs h))
  ]

two_pow_bounds : (k : ℕ) → 1 ≤ k → k ≤ 5 → (2 ≤ 2 ^ k) × (2 ^ k ≤ 32)
two_pow_bounds zero h k = absurd (omega arith)
two_pow_bounds (suc zero) h k = (omega arith, omega arith)
two_pow_bounds (suc (suc zero)) h k = (omega arith, omega arith)
two_pow_bounds (suc (suc (suc zero))) h k = (omega arith, omega arith)
two_pow_bounds (suc (suc (suc (suc zero)))) h k = (omega arith, omega arith)
two_pow_bounds (suc (suc (suc (suc (suc zero))))) h k = (omega arith, omega arith)
two_pow_bounds (suc (suc (suc (suc (suc (suc n)))))) h k = absurd (omega arith)

pub delay_minutes_bounds : (n : ℕ) → (2 ≤ delay_minutes n) × (delay_minutes n ≤ 30)
delay_minutes_bounds n =
    let k = min (or_one n) 5 in
    let p : 1 ≤ k = ground arith in
    let b = two_pow_bounds k p (omega arith) in (omega (arith, b), omega arith)

-- A failed job is dead, because its failure is permanent or its attempts are used up, and then has no
-- time of a retry; or it has attempts left, and is to be tried again after 2 to 30 minutes.
abbrev pub Failed : ℕ → Job → JobError → Job → Type 0
Failed now j error j' =
    (j'.status ≡ dead)
      × (j'.next_retry_time ≡ none)
      × ((is_permanent error ≡ true) ⊎ (or_one j.max_attempts ≤ j.attempts))
    ⊎ ((j'.status ≡ retry)
        × (is_permanent error ≡ false)
        × (j.attempts < or_one j.max_attempts)
        × ((t : ℕ) × (j'.next_retry_time ≡ some t) × (now + 120 ≤ t) × (t ≤ now + 1800)))

abbrev pub Settled : ℕ → Job → Execution ⊎ JobError → Job → Type 0
Settled now j (inl (indexed chunks)) j' =
    (j'.status ≡ success) × (j'.chunk_count ≡ chunks) × (j'.error_message ≡ none)
Settled now j (inl (raised m)) j' = Failed now j (transient m) j'
Settled now j (inr error) j' = Failed now j error j'

fail_job-Failed : (now : ℕ) (error : JobError) (j : Job) → Failed now j error (fail_job now error j)
unfolding fail_job
fail_job-Failed now error j =
    elim (Bool-cases (is_permanent error || leb (or_one j.max_attempts) j.attempts)) [
      | inl e ↦ inl (rw e, rw e, ground arith)
      | inr e ↦
          let b = delay_minutes_bounds j.attempts in
          inr (
            rw e,
            ground arith,
            ground arith,
            (now + 60 * delay_minutes j.attempts, rw e, omega (arith, b), omega (arith, b)),
          )
    ]

-- The status that the document of a job is to have.
abbrev pub matching : JobStatus → String
matching success = "success"
matching dead = "failed"
matching _ = "queued"

-- What processing a job leaves behind: the job itself, settled as its attempt came out; every
-- document of the job, at the matching status; and every other job, every other document and all
-- knowledge bases as they were.
pub record Processed (w : Surroundings) (now : ℕ) (s s' : Store) (j : Job) : Type 0 where
  pub after : Job
  pub found : find? (λ x. x.id == j.id) s'.jobs ≡ some after
  pub settled : Settled now j (attempt w s j) after
  pub documents : All (λ d. (d.id == j.doc_id) ≡ true → d.status ≡ matching after.status) s'.docs
  pub others :
      (k : String)
      → (j.id == k) ≡ false
      → find? (λ x. x.id == k) s'.jobs ≡ find? (λ x. x.id == k) s.jobs
  pub other_documents :
      filter (λ (d : Document). not (d.id == j.doc_id)) s'.docs
      ≡ filter (λ (d : Document). not (d.id == j.doc_id)) s.docs
  pub kbs : s'.kbs ≡ s.kbs

module _ (w : Surroundings) (now elapsed_ms : ℕ) (s : Store) (j : Job)
    (present : find? (λ x. x.id == j.id) s.jobs ≡ some j) where
  changed-Processed :
      (f : Job → Job) (g : Document → Document)
      → ((x : Job) → (f x).id ≡ x.id)
      → ((d : Document) → (g d).status ≡ matching (f j).status)
      → ((d : Document) → (g d).id ≡ d.id)
      → Settled now j (attempt w s j) (f j)
      → Processed w now s (update_doc j.doc_id g (update_job j.id f s)) j
  unfolding update_doc update_job
  changed-Processed f g keeps marks same settled = record {
    after = f j;
    found =
        rw (find?-update_where (λ (x : Job). x.id) f keeps j.id j.id s.jobs, eq_refl j.id, present);
    settled = settled;
    documents =
        update_where-All (λ (d : Document). d.id) g (λ d. d.status ≡ matching (f j).status) j.doc_id
          s.docs (λ d _. marks d);
    others = λ k other. rw (find?-update_where (λ (x : Job). x.id) f keeps j.id k s.jobs, other);
    other_documents =
        update_where-others (λ (d : Document). d.id) g (λ d. Unit) j.doc_id s.docs same;
    kbs = refl;
  }

  fail_job-id : (error : JobError) (x : Job) → (fail_job now error x).id ≡ x.id
  unfolding fail_job
  fail_job-id error x = ground arith

  fail_job-matching :
      (error : JobError)
      → doc_status_after (fail_job now error j).status ≡ matching (fail_job now error j).status
  unfolding fail_job
  fail_job-matching error = ground arith

  mark_failure-Processed :
      (error : JobError)
      → Settled now j (attempt w s j) (fail_job now error j)
      → Processed w now s (mark_failure now j.id error s) j
  unfolding mark_failure
  mark_failure-Processed error settled =
      rw (present, mark_failure)
        (changed-Processed (fail_job now error) _ (fail_job-id error) (λ d. fail_job-matching error)
          (λ d. refl) settled)

  -- Whatever the attempt meets, a missing row or file, an exception or success, processing settles the
  -- job: afterwards it is done, dead or waiting for its retry, its documents show the same, and no
  -- other job, no other document and no knowledge base has changed.
  pub process_job-Processed : Processed w now s (process_job w now elapsed_ms j.id s) j
  unfolding process_job
  process_job-Processed = by_attempt (attempt w s j) refl
    where
      by_attempt :
          (o : Execution ⊎ JobError)
          → attempt w s j ≡ o
          → Processed w now s (process_job w now elapsed_ms j.id s) j
      by_attempt (inl (indexed chunks)) e =
          rw (present, process_job, e)
            (changed-Processed (finish_job now elapsed_ms chunks) (indexed_doc w j chunks)
              (λ x. refl) (λ d. refl) (λ d. refl) (rw e (refl, refl, refl)))
      by_attempt (inl (raised m)) e =
          rw (present, process_job, e)
            (mark_failure-Processed (transient m) (rw e (fail_job-Failed now (transient m) j)))
      by_attempt (inr error) e =
          rw (present, process_job, e)
            (mark_failure-Processed error (rw e (fail_job-Failed now error j)))
