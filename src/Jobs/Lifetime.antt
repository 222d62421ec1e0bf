-- ===== src/Jobs/Lifetime.antt =====
-- The life of one job: rounds of a claim and a failure, and rounds of claims by workers that crash.
use flavor_rag.Prelude.{
  ◌∷◌, [], Bool, String, ℕ, List, ◌≤◌, if◌then◌else◌, ◌≡◌, ◌↔◌, true, ◌⊎◌, ◌+◌, ◌<◌, ◌≢◌,
  Bool-cases, inl, arith, false, some, leb, inr, ◌∙◌, ◌*◌, ap, refl, length,
}
use flavor_rag.Jobs.Failures.{delay_minutes_bounds}
use flavor_rag.Jobs.Store.{Job, queued, retry, dead}
use flavor_rag.Jobs.Worker.{transient, is_due, claim_job, fail_job, or_one, delay_minutes}

module _ (locked : Job → Bool) (worker_id : String) (concurrency claim_timeout : ℕ) where
  abbrev pub claim_at : ℕ → Job → Job
  claim_at now = claim_job locked worker_id concurrency claim_timeout now

  abbrev pub fail_at : ℕ → List ℕ → Job → Job
  fail_at now m j = fail_job now (transient m) (claim_at now j)

  -- At each of the times the job, if it is due, is claimed and its execution raises an exception: the
  -- execution itself takes no time.
  unfoldable pub failing_rounds : List (ℕ × List ℕ) → Job → Job
  failing_rounds [] j = j
  failing_rounds ((now, m) ∷ rounds) j =
      failing_rounds rounds
        (if is_due now claim_timeout j then fail_job now (transient m) (claim_at now j) else j)

  -- In how many of the rounds the job is due.
  pub due_rounds : List (ℕ × List ℕ) → Job → ℕ
  due_rounds [] j = 0
  due_rounds ((now, m) ∷ rounds) j =
      (if is_due now claim_timeout j then 1 else 0)
      + due_rounds rounds
          (if is_due now claim_timeout j then fail_job now (transient m) (claim_at now j) else j)

  -- Between the rounds a job is dead with its attempts used up, or waits with attempts left.
  abbrev pub Waiting : Job → Type 0
  Waiting j =
      (j.status ≡ dead) × (j.attempts ≡ or_one j.max_attempts)
      ⊎ ((j.status ≡ queued) ⊎ (j.status ≡ retry)) × (j.attempts < or_one j.max_attempts)

  due_alive :
      (now : ℕ) (j : Job)
      → is_due now claim_timeout j ≡ true
      → (j.status ≢ dead) × (j.deleted ≡ false)
  unfolding is_due
  due_alive now j due = (λ e. ground arith, ground arith)

  -- A round in which a waiting job is due.
  record Round (now : ℕ) (j j' : Job) : Type 0 where
    counted : j'.attempts ≡ j.attempts + 1
    limit : j'.max_attempts ≡ j.max_attempts
    kept : j'.deleted ≡ j.deleted
    ends :
        (j'.status ≡ dead) × (or_one j.max_attempts ≤ j.attempts + 1)
        ⊎ (j'.status ≡ retry)
          × (j.attempts + 1 < or_one j.max_attempts)
          × (j'.next_retry_time ≡ some (now + 60 * delay_minutes (j.attempts + 1)))

  round_lem :
      (now : ℕ) (m : List ℕ) (j : Job) → Round now j (fail_job now (transient m) (claim_at now j))
  unfolding fail_job claim_job
  round_lem now m j = elim (Bool-cases (leb (or_one j.max_attempts) (j.attempts + 1))) [
    | inl e ↦ record { counted = rw e; limit = rw e; kept = rw e; ends = inl (rw e, ground arith) }
    | inr e ↦ record {
      counted = rw e;
      limit = rw e;
      kept = rw e;
      ends = inr (rw e, ground arith, rw e);
    }
  ]

  Round-Waiting :
      (now : ℕ) (j j' : Job)
      → Waiting j
      → is_due now claim_timeout j ≡ true
      → Round now j j'
      → Waiting j'
  Round-Waiting now j j' (inl (ended, used)) due r = absurd ((due_alive now j due).0 ended)
  Round-Waiting now j j' (inr (waits, left)) due r = elim r.ends [
    | inl (ended, used) ↦ inl (ended, omega (arith, r.counted, ap or_one r.limit))
    | inr (again, more, time) ↦ inr (inr again, omega (arith, r.counted, ap or_one r.limit))
  ]

  failing_rounds-Waiting :
      (rounds : List (ℕ × List ℕ)) (j : Job)
      → Waiting j
      → Waiting (failing_rounds rounds j)
        × ((failing_rounds rounds j).attempts ≡ j.attempts + due_rounds rounds j)
        × ((failing_rounds rounds j).max_attempts ≡ j.max_attempts)
  unfolding failing_rounds due_rounds
  failing_rounds-Waiting [] j v = (v, omega arith, refl)
  failing_rounds-Waiting ((now, m) ∷ rounds) j v = elim (Bool-cases (is_due now claim_timeout j)) [
    | inl due ↦
        let r = round_lem now m j in
        let (w, n, l) =
          failing_rounds-Waiting rounds (fail_at now m j)
            (Round-Waiting now j (fail_at now m j) v due r) in
        rw (due, failing_rounds) (w, omega (arith, n, r.counted), l ∙ r.limit)
    | inr idle ↦
        let (w, n, l) = failing_rounds-Waiting rounds j v in
        rw (idle, failing_rounds) (w, omega (arith, n), l)
  ]

  -- A waiting job whose executions keep failing uses one attempt for each round in which it is due, and
  -- is dead exactly when its attempts are used up: not before, and not later.
  pub failing_rounds_lem :
      (rounds : List (ℕ × List ℕ)) (j : Job)
      → Waiting j
      → ((failing_rounds rounds j).status ≡ dead)
        ↔ (j.attempts + due_rounds rounds j ≡ or_one j.max_attempts)
  failing_rounds_lem rounds j v =
      let (w, n, l) = failing_rounds-Waiting rounds j v in
      elim w [
        | inl (ended, used) ↦ (λ _. omega (arith, n, ap or_one l), λ _. ended)
        | inr (waits, left) ↦ (
          λ ended. elim waits [ inl q ↦ absurd (cc) | inr r ↦ absurd (cc) ],
          λ used. absurd (omega (arith, n, ap or_one l)),
        )
      ]

  -- From the given time on the job is dead or due.
  abbrev Ready : ℕ → Job → Type 0
  Ready since j = (t : ℕ) → since ≤ t → (j.status ≡ dead) ⊎ (is_due t claim_timeout j ≡ true)

  -- Each round comes at least 30 minutes after the one before it.
  abbrev pub Spaced : ℕ → List (ℕ × List ℕ) → Type 0
  Spaced since [] = Unit
  Spaced since ((now, m) ∷ rounds) = (since ≤ now) × Spaced (now + 1800) rounds

  Round-Ready : (now : ℕ) (j j' : Job) → j.deleted ≡ false → Round now j j' → Ready (now + 1800) j'
  unfolding is_due
  Round-Ready now j j' live r t h = elim r.ends [
    | inl (ended, used) ↦ inl ended
    | inr (again, more, time) ↦
        let b = (delay_minutes_bounds (j.attempts + 1)).1 in
        inr (rw (r.kept, live, again, time) (ground (arith, b)))
  ]

  dead_idle : (now : ℕ) (j : Job) → j.status ≡ dead → is_due now claim_timeout j ≡ false
  unfolding is_due
  dead_idle now j ended = rw ended (ground arith)

  -- A dead job stays as it is.
  failing_rounds-dead :
      (rounds : List (ℕ × List ℕ)) (j : Job) → j.status ≡ dead → failing_rounds rounds j ≡ j
  unfolding failing_rounds
  failing_rounds-dead [] j ended = refl
  failing_rounds-dead ((now, m) ∷ rounds) j ended =
      rw (dead_idle now j ended) (failing_rounds-dead rounds j ended)

  rounds_of_Ready :
      (rounds : List (ℕ × List ℕ)) (since : ℕ) (j : Job)
      → Waiting j
      → j.deleted ≡ false
      → Ready since j
      → Spaced since rounds
      → or_one j.max_attempts ≤ j.attempts + length rounds
      → (failing_rounds rounds j).status ≡ dead
  unfolding failing_rounds
  rounds_of_Ready [] since j v live ready spaced enough = elim v [
    | inl (ended, used) ↦ ended
    | inr (waits, left) ↦ absurd (omega arith)
  ]
  rounds_of_Ready ((now, m) ∷ rounds) since j v live ready spaced enough =
      elim (ready now spaced.0) [
        | inl ended ↦ rw (failing_rounds-dead ((now, m) ∷ rounds) j ended) ended
        | inr due ↦
            let r = round_lem now m j in
            rw (due, failing_rounds)
              (rounds_of_Ready rounds (now + 1800) (fail_at now m j)
                (Round-Waiting now j (fail_at now m j) v due r) (r.kept ∙ live)
                (Round-Ready now j (fail_at now m j) live r) spaced.1
                (omega (arith, r.counted, ap or_one r.limit, enough)))
      ]

  queued-Ready : (j : Job) → j.status ≡ queued → j.deleted ≡ false → Ready 0 j
  unfolding is_due
  queued-Ready j new live t h = inr (rw (new, live) refl)

  -- A queued job that is not deleted and has attempts left, and whose every execution fails, is dead
  -- after as many rounds as it has attempts, if each round comes at least 30 minutes after the one
  -- before it.
  pub queued_rounds-dead :
      (rounds : List (ℕ × List ℕ)) (j : Job)
      → j.status ≡ queued
      → j.deleted ≡ false
      → j.attempts < or_one j.max_attempts
      → Spaced 0 rounds
      → or_one j.max_attempts ≤ j.attempts + length rounds
      → (failing_rounds rounds j).status ≡ dead
  queued_rounds-dead rounds j new live left spaced enough =
      rounds_of_Ready rounds 0 j (inr (inl new, left)) live (queued-Ready j new live) spaced enough
