-- ===== src/Jobs/Claims.antt =====
-- Which jobs a worker claims, and that no two workers run one job.
use flavor_rag.Prelude.{
  ◌∷◌, [], ◌++◌, Bool, ◌≡◌, ℕ, List, false, true, String, All, arith, ◌&&◌, drop, filter, ◌<◌, suc,
  take, not, length, ◌+◌, in_list, min, All-take, zero, take-append-drop, length-take,
  All-filter_test, All-filter_given, All-of_map, Bool-cases, inl, inr, ◌==◌, some, eq_iff,
  All-of_Member, refl, All-member, in_list→Member, Option-cases, ◌⊎◌,
}
use flavor_rag.Prelude.Sort.{sort, IsSorted, sort-IsSorted, sort-perm, length-sort, All-sort}
use mathlib.Core.List.{Perm}
use flavor_rag.Jobs.Store.{Job, Store, update_where, running, update_job, update_doc, find?}
use flavor_rag.Jobs.Worker.{
  is_due, is_past, older, claimed, claim_job, claim_jobs, Surroundings, process_job, fail_job,
  mark_failure, finish_job, JobError, Execution, attempt, raised, transient, indexed,
}

module _ {A : Type 0} (ahead : A → A → Bool) where
  drop_ahead :
      (n : ℕ) (x : A) (xs : List A)
      → All (λ y. ahead x y ≡ true) xs
      → All (λ y. ahead x y ≡ true) (drop n xs)
  drop_ahead zero x xs h = h
  drop_ahead (suc n) x [] h = tt
  drop_ahead (suc n) x (y ∷ xs) h = drop_ahead n x xs h.1

  take-ahead-drop :
      (n : ℕ) (xs : List A)
      → IsSorted ahead xs
      → All (λ x. All (λ y. ahead x y ≡ true) (drop n xs)) (take n xs)
  take-ahead-drop zero xs s = tt
  take-ahead-drop (suc n) [] s = tt
  take-ahead-drop (suc n) (x ∷ xs) s = (drop_ahead n x xs s.0, take-ahead-drop n xs s.1)

older_total : (x y : Job) → older x y ≡ false → older y x ≡ true
older_total x y h = ground arith

older_trans : (x y z : Job) → older x y ≡ true → older y z ≡ true → older x z ≡ true
older_trans x y z h k = ground arith

module _ (locked : Job → Bool) (worker_id : String) (concurrency claim_timeout now : ℕ) where
  abbrev pub can_claim : Job → Bool
  can_claim j = is_due now claim_timeout j && not (locked j)

  abbrev pub left_over : List Job → List Job
  left_over jobs = drop concurrency (sort older (filter can_claim jobs))

  -- A worker claims as many jobs as its concurrency allows and can be claimed: jobs that are due and
  -- not locked, and of these the oldest, so that none left over is older than one claimed.
  pub claimed_lem :
      (jobs : List Job)
      → let xs = claimed locked worker_id concurrency claim_timeout now jobs in
        Perm (xs ++ left_over jobs) (filter can_claim jobs)
        × (length xs ≡ min concurrency (length (filter can_claim jobs)))
        × All (λ x. can_claim x ≡ true) xs
        × All (λ x. All (λ y. older x y ≡ true) (left_over jobs)) xs
  unfolding claimed
  claimed_lem jobs =
      let pool = filter can_claim jobs in
      let ordered = sort older pool in
      (
        rw (take-append-drop concurrency ordered) (sort-perm older pool),
        omega (arith, length-take concurrency ordered, length-sort older pool),
        All-take _ concurrency ordered (All-sort older _ pool (All-filter_test can_claim jobs)),
        take-ahead-drop older concurrency ordered
            (sort-IsSorted older older_total older_trans pool),
      )

module _ (claim_timeout : ℕ) where
  claimed_apart :
      (locked : Job → Bool) (worker_id : String) (concurrency now : ℕ) (ids : List String)
      (jobs : List Job)
      → All (λ j. in_list j.id ids ≡ true → is_due now claim_timeout j ≡ false) jobs
      → All
          (λ j. in_list j.id ids ≡ false)
          (claimed locked worker_id concurrency claim_timeout now jobs)
  unfolding claimed
  claimed_apart locked worker_id concurrency now ids jobs h = All-take _ concurrency _ (
      All-sort older _ _ (
        All-filter_given _ _ (can_claim locked worker_id concurrency claim_timeout now) jobs
          (λ j due fresh. elim (Bool-cases (in_list j.id ids)) [
            | inl again ↦ absurd (cc (fresh again))
            | inr other ↦ other
          ])
          h))

-- What the workers do to the store: a claim, or the end of the processing of a job.
pub data WorkerEvent : Type 0 where
  claims : (Job → Bool) → String → ℕ → ℕ → WorkerEvent
  ends : Surroundings → ℕ → ℕ → String → WorkerEvent

-- The store behind an event, and the ids that it claims.
abbrev pub happen : ℕ → WorkerEvent → Store → Store × List String
happen claim_timeout (claims locked worker n now) s = claim_jobs locked worker n claim_timeout now s
happen claim_timeout (ends w now elapsed_ms job_id) s = (process_job w now elapsed_ms job_id s, [])

abbrev pub happen_all : ℕ → List WorkerEvent → Store → Store
happen_all claim_timeout [] s = s
happen_all claim_timeout (e ∷ events) s =
    happen_all claim_timeout events (happen claim_timeout e s).0

-- Claims take place before `limit`, and no job of the ids ends.
abbrev pub Meanwhile : ℕ → List String → WorkerEvent → Type 0
Meanwhile limit ids (claims locked worker n now) = now < limit
Meanwhile limit ids (ends w now elapsed_ms job_id) = in_list job_id ids ≡ false

module _ (claim_timeout now : ℕ) (ids : List String) where
  -- The rows with the ids carry the claim of the time `now`.
  abbrev Held : Job → Type 0
  Held j = in_list j.id ids ≡ true → (j.status ≡ running) × (j.claimed_at ≡ some now)

  Held-is_due :
      (later : ℕ) (jobs : List Job)
      → later < now + claim_timeout
      → All Held jobs
      → All (λ j. in_list j.id ids ≡ true → is_due later claim_timeout j ≡ false) jobs
  unfolding is_due is_past
  Held-is_due later [] h held = tt
  Held-is_due later (j ∷ jobs) h held = (
    λ k. let (status, time) = held.0 k in rw (is_due, status, time) (ground arith),
    Held-is_due later jobs h held.1,
  )

  -- A change of rows with other ids keeps the claims.
  Held-update :
      (p : Job → Bool) (f : Job → Job) (jobs : List Job)
      → ((j : Job) → (f j).id ≡ j.id)
      → All (λ j. p j ≡ true → in_list j.id ids ≡ false) jobs
      → All Held jobs
      → All Held (update_where p f jobs)
  unfolding update_where
  Held-update p f [] same apart held = tt
  Held-update p f (j ∷ jobs) same apart held = elim (Bool-cases (p j)) [
    | inr e ↦ rw e (held.0, Held-update p f jobs same apart.1 held.1)
    | inl e ↦
        let other = apart.0 e in
        rw e (λ k. absurd (cc (rw (same j) at k, other)), Held-update p f jobs same apart.1 held.1)
  ]

  others_apart :
      (job_id : String) (jobs : List Job)
      → in_list job_id ids ≡ false
      → All (λ j. (j.id == job_id) ≡ true → in_list j.id ids ≡ false) jobs
  others_apart job_id [] h = tt
  others_apart job_id (j ∷ jobs) h =
      (λ e. rw ((eq_iff j.id job_id).0 e) h, others_apart job_id jobs h)

  claimed-apart :
      (locked : Job → Bool) (worker : String) (n later : ℕ) (s : Store)
      → later < now + claim_timeout
      → All Held s.jobs
      → All (λ i. in_list i ids ≡ false) (claim_jobs locked worker n claim_timeout later s).1
  unfolding claim_jobs
  claimed-apart locked worker n later s h held = All-of_map _ _ _ (
      claimed_apart claim_timeout locked worker n later ids s.jobs
        (Held-is_due later s.jobs h held))

  claim_jobs-Held :
      (locked : Job → Bool) (worker : String) (n later : ℕ) (s : Store)
      → later < now + claim_timeout
      → All Held s.jobs
      → All Held (claim_jobs locked worker n claim_timeout later s).0.jobs
  unfolding claim_jobs claim_job
  claim_jobs-Held locked worker n later s h held =
      let new_ids = (claim_jobs locked worker n claim_timeout later s).1 in
      let apart = claimed-apart locked worker n later s h held in
      Held-update (λ j. in_list j.id new_ids) (claim_job locked worker n claim_timeout later) s.jobs
        (λ j. refl)
        (All-of_Member _ s.jobs
          (λ j m e. All-member _ new_ids apart j.id (in_list→Member j.id new_ids e)))
        held

  fail_job-same : (time : ℕ) (error : JobError) (j : Job) → (fail_job time error j).id ≡ j.id
  unfolding fail_job
  fail_job-same time error j = ground arith

  mark_failure-Held :
      (time : ℕ) (job_id : String) (error : JobError) (s : Store)
      → in_list job_id ids ≡ false
      → All Held s.jobs
      → All Held (mark_failure time job_id error s).jobs
  unfolding mark_failure update_job update_doc
  mark_failure-Held time job_id error s h held =
      elim (Option-cases (find? (λ (j : Job). j.id == job_id) s.jobs)) [
        | inl e ↦ rw (e, mark_failure) held
        | inr (j, e) ↦
            rw (e, mark_failure)
              (Held-update (λ k. k.id == job_id) (fail_job time error) s.jobs
                (fail_job-same time error) (others_apart job_id s.jobs h) held)
      ]

  process_job-Held :
      (w : Surroundings) (time elapsed_ms : ℕ) (job_id : String) (s : Store)
      → in_list job_id ids ≡ false
      → All Held s.jobs
      → All Held (process_job w time elapsed_ms job_id s).jobs
  unfolding process_job finish_job update_job update_doc
  process_job-Held w time elapsed_ms job_id s h held =
      elim (Option-cases (find? (λ (j : Job). j.id == job_id) s.jobs)) [
        | inl e ↦ rw (e, process_job) held
        | inr (j, e) ↦ by_attempt j e (attempt w s j) refl
      ]
    where
      by_attempt :
          (j : Job)
          → find? (λ (k : Job). k.id == job_id) s.jobs ≡ some j
          → (o : Execution ⊎ JobError) → attempt w s j ≡ o
          → All Held (process_job w time elapsed_ms job_id s).jobs
      by_attempt j e (inr error) f =
          rw (e, process_job, f) (mark_failure-Held time job_id error s h held)
      by_attempt j e (inl (raised m)) f =
          rw (e, process_job, f) (mark_failure-Held time job_id (transient m) s h held)
      by_attempt j e (inl (indexed chunks)) f =
          rw (e, process_job, f)
            (Held-update (λ k. k.id == job_id) (finish_job time elapsed_ms chunks) s.jobs
              (λ k. refl) (others_apart job_id s.jobs h) held)

  happen_all-Held :
      (events : List WorkerEvent) (s : Store)
      → All (Meanwhile (now + claim_timeout) ids) events
      → All Held s.jobs
      → All Held (happen_all claim_timeout events s).jobs
  happen_all-Held [] s h held = held
  happen_all-Held (claims locked worker n later ∷ events) s h held =
      happen_all-Held events (claim_jobs locked worker n claim_timeout later s).0 h.1
        (claim_jobs-Held locked worker n later s h.0 held)
  happen_all-Held (ends w time elapsed_ms job_id ∷ events) s h held =
      happen_all-Held events (process_job w time elapsed_ms job_id s) h.1
        (process_job-Held w time elapsed_ms job_id s h.0 held)

-- A claim leaves its time on the rows that it takes.
claim_jobs-claimed :
    (locked : Job → Bool) (worker : String) (n claim_timeout now : ℕ) (ids : List String)
    (jobs : List Job)
    → All
        (Held claim_timeout now ids)
        (update_where (λ j. in_list j.id ids) (claim_job locked worker n claim_timeout now) jobs)
unfolding update_where claim_job
claim_jobs-claimed locked worker n claim_timeout now ids [] = tt
claim_jobs-claimed locked worker n claim_timeout now ids (j ∷ jobs) =
    elim (Bool-cases (in_list j.id ids)) [
      | inl e ↦
          rw e (λ k. (refl, refl), claim_jobs-claimed locked worker n claim_timeout now ids jobs)
      | inr e ↦
          rw e (λ k. absurd (cc), claim_jobs-claimed locked worker n claim_timeout now ids jobs)
    ]

-- A job that has been claimed is claimed by no one, whatever workers claim and end other jobs and
-- whatever rows are locked, until its own processing ends or the claim times out.
pub claim_jobs-exclusive :
    (claim_timeout : ℕ) (locked locked' : Job → Bool) (worker worker' : String) (n n' now now' : ℕ)
    (events : List WorkerEvent) (s : Store)
    → All
        (Meanwhile (now + claim_timeout) (claim_jobs locked worker n claim_timeout now s).1)
        events
    → now' < now + claim_timeout
    → let (s', ids) = claim_jobs locked worker n claim_timeout now s in
      All
        (λ i. in_list i ids ≡ false)
        (claim_jobs locked' worker' n' claim_timeout now' (happen_all claim_timeout events s')).1
claim_jobs-exclusive claim_timeout locked locked' worker worker' n n' now now' events s h later =
    let first = claim_jobs locked worker n claim_timeout now s in
    let held : All (Held claim_timeout now first.1) first.0.jobs =
      unfold claim_jobs in claim_jobs-claimed locked worker n claim_timeout now _ s.jobs in
    claimed-apart claim_timeout now first.1 locked' worker' n' now'
      (happen_all claim_timeout events first.0) later
      (happen_all-Held claim_timeout now first.1 events first.0 h held)
