-- ===== src/Jobs/Idempotence.antt =====
-- What makes `enqueue_ingestion_job` idempotent: one live job for each idempotency key.
use flavor_rag.Prelude.{
  ◌≡◌, ◌∷◌, [], ◌++◌, ◌==◌, ◌&&◌, ◌≤◌, ◌+◌, List, String, Bool, true, false, not, none, some, arith,
  ℕ, filter, length, eq_refl, eq_iff, Option-cases, refl, inl, inr, Bool-cases, ◌∙◌, subst, sym, ap,
}
use flavor_rag.Jobs.Store.{Job, Store, find?, update_doc}
use flavor_rag.Jobs.Enqueue.{
  Request, Answers, idempotency_key, new_job, is_existing, enqueue_ingestion_job,
}

module _ {A : Type 0} (p : A → Bool) where
  find?-append_last :
      (xs : List A) (x : A) → find? p xs ≡ none → p x ≡ true → find? p (xs ++ x ∷ []) ≡ some x
  unfolding find?
  find?-append_last [] x h k = ground arith
  find?-append_last (y ∷ xs) x h k = ground (arith, find?-append_last xs x)

  filter-find?-none : (xs : List A) → find? p xs ≡ none → filter p xs ≡ []
  unfolding find?
  filter-find?-none [] h = refl
  filter-find?-none (x ∷ xs) h = ground (arith, filter-find?-none xs)

filter-append_last :
    {A : Type 0} (p : A → Bool) (xs : List A) (x : A)
    → length (filter p (xs ++ x ∷ [])) ≤ length (filter p xs) + 1
filter-append_last p [] x = ground arith
filter-append_last p (y ∷ xs) x = ground (arith, filter-append_last p xs x)

filter-append_failing :
    {A : Type 0} (p : A → Bool) (xs : List A) (x : A)
    → p x ≡ false
    → filter p (xs ++ x ∷ []) ≡ filter p xs
filter-append_failing p [] x h = ground arith
filter-append_failing p (y ∷ xs) x h = ground (arith, filter-append_failing p xs x h)

module _ (sha256 : String → String) (show : ℕ → String) where
  new_job_existing :
      (r : Request) (a : Answers) → is_existing sha256 show r (new_job sha256 show r a) ≡ true
  unfolding new_job
  new_job_existing r a = ground (arith, eq_refl (idempotency_key sha256 show r))

  module _ (r : Request) (a : Answers) (s : Store) where
    enqueue-fresh :
        find? (is_existing sha256 show r) s.jobs ≡ none
        → ((enqueue_ingestion_job sha256 show r a s).0.jobs
            ≡ s.jobs ++ new_job sha256 show r a ∷ [])
          × ((enqueue_ingestion_job sha256 show r a s).1 ≡ new_job sha256 show r a)
    unfolding enqueue_ingestion_job update_doc
    enqueue-fresh fresh = rw (fresh, enqueue_ingestion_job) (refl, refl)

    enqueue-existing :
        (j : Job)
        → find? (is_existing sha256 show r) s.jobs ≡ some j
        → ((enqueue_ingestion_job sha256 show r a s).0.jobs ≡ s.jobs)
          × ((enqueue_ingestion_job sha256 show r a s).1 ≡ j)
    unfolding enqueue_ingestion_job update_doc
    enqueue-existing j old = rw (old, enqueue_ingestion_job) (refl, refl)

  -- A request that is enqueued again, whatever ids, path and time the second call would use, returns
  -- the job of the first call and adds no job.
  pub enqueue_replay :
      (r : Request) (a b : Answers) (s : Store)
      → let (s', job) = enqueue_ingestion_job sha256 show r a s in
        let (s'', again) = enqueue_ingestion_job sha256 show r b s' in
        (again ≡ job) × (s''.jobs ≡ s'.jobs)
  enqueue_replay r a b s =
      let s' = (enqueue_ingestion_job sha256 show r a s).0 in
      elim (Option-cases (find? (is_existing sha256 show r) s.jobs)) [
        | inl fresh ↦
            let (grown, new) = enqueue-fresh r a s fresh in
            let last =
              find?-append_last (is_existing sha256 show r) s.jobs (new_job sha256 show r a) fresh
                (new_job_existing r a) in
            let (same, again) = enqueue-existing r b s' (new_job sha256 show r a) (rw grown last) in
            (again ∙ sym new, same)
        | inr (j, old) ↦
            let (kept, first) = enqueue-existing r a s j old in
            let (same, again) = enqueue-existing r b s' j (rw kept old) in (again ∙ sym first, same)
      ]

-- The jobs of one key that are not deleted.
abbrev pub live_jobs : String → Store → List Job
live_jobs key s = filter (λ j. j.idempotency_key == key && not j.deleted) s.jobs

-- No two jobs that are not deleted have the same key.
abbrev pub IsUnique : Store → Type 0
IsUnique s = (key : String) → length (live_jobs key s) ≤ 1

module _ (sha256 : String → String) (show : ℕ → String) where
  new_job-other :
      (r : Request) (a : Answers) (key : String)
      → (idempotency_key sha256 show r == key) ≡ false
      → ((new_job sha256 show r a).idempotency_key == key && not (new_job sha256 show r a).deleted)
        ≡ false
  unfolding new_job
  new_job-other r a key h = ground (arith, h)

  -- Enqueueing keeps the jobs of each key apart: if no two live jobs share a key, none do afterwards.
  pub enqueue-IsUnique :
      (r : Request) (a : Answers) (s : Store)
      → IsUnique s
      → IsUnique (enqueue_ingestion_job sha256 show r a s).0
  enqueue-IsUnique r a s unique key =
      elim (Option-cases (find? (is_existing sha256 show r) s.jobs)) [
        | inr (j, old) ↦ rw (enqueue-existing sha256 show r a s j old).0 (unique key)
        | inl fresh ↦
            rw (enqueue-fresh sha256 show r a s fresh).0
              (elim (Bool-cases (idempotency_key sha256 show r == key)) [
                | inl same ↦
                    let k = (eq_iff (idempotency_key sha256 show r) key).0 same in
                    let none_of = filter-find?-none (is_existing sha256 show r) s.jobs fresh in
                    let grown =
                      filter-append_last (is_existing sha256 show r) s.jobs
                        (new_job sha256 show r a) in
                    subst
                      (λ k.
                        length (
                          filter (λ j. j.idempotency_key == k && not j.deleted)
                            (s.jobs ++ new_job sha256 show r a ∷ []))
                        ≤ 1)
                      k (omega (arith, grown, ap length none_of))
                | inr other ↦
                    rw
                      (filter-append_failing (λ j. j.idempotency_key == key && not j.deleted) s.jobs
                        (new_job sha256 show r a) (new_job-other r a key other))
                      (unique key)
              ])
      ]
