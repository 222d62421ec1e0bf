-- ===== src/Jobs/Crashes.antt =====
-- What `_claim_jobs` does with a job whose worker dies while it runs the job.
use flavor_rag.Prelude.{
  ◌∷◌, [], Bool, String, ℕ, List, ◌≤◌, ◌≡◌, true, false, arith, ◌+◌, length, refl, if◌then◌else◌,
  some,
}
use flavor_rag.Jobs.Store.{Job, queued, running}
use flavor_rag.Jobs.Worker.{claim_job, is_due, is_past}

module _ (locked : Job → Bool) (worker_id : String) (concurrency claim_timeout : ℕ) where
  -- At each of the times the job is claimed if it is due, and nothing more is heard of the worker.
  unfoldable pub crash_rounds : List ℕ → Job → Job
  crash_rounds [] j = j
  crash_rounds (now ∷ times) j = crash_rounds times (
      if is_due now claim_timeout j
      then claim_job locked worker_id concurrency claim_timeout now j
      else j)

  -- Each time comes at least the claim timeout after the one before it.
  abbrev pub Stale : ℕ → List ℕ → Type 0
  Stale claimed_at [] = Unit
  Stale claimed_at (now ∷ times) = (claimed_at + claim_timeout ≤ now) × Stale now times

  module _ (now : ℕ) (j : Job) where
    abbrev again : Job
    again = claim_job locked worker_id concurrency claim_timeout now j

    claimed_status : again.status ≡ running
    unfolding claim_job
    claimed_status = refl

    claimed_deleted : j.deleted ≡ false → again.deleted ≡ false
    unfolding claim_job
    claimed_deleted live = live

    claimed_time : again.claimed_at ≡ some now
    unfolding claim_job
    claimed_time = refl

    claimed_attempts : again.attempts ≡ j.attempts + 1
    unfolding claim_job
    claimed_attempts = refl

    queued_due : j.status ≡ queued → j.deleted ≡ false → is_due now claim_timeout j ≡ true
    unfolding is_due
    queued_due waits live = rw (live, waits) refl

  stale_due :
      (now claimed_at : ℕ) (j : Job)
      → j.status ≡ running
      → j.deleted ≡ false
      → j.claimed_at ≡ some claimed_at
      → claimed_at + claim_timeout ≤ now
      → is_due now claim_timeout j ≡ true
  unfolding is_due is_past
  stale_due now claimed_at j runs live at stale = rw (live, runs, at) (ground (arith, stale))

  running_rounds :
      (times : List ℕ) (claimed_at : ℕ) (j : Job)
      → j.status ≡ running
      → j.deleted ≡ false
      → j.claimed_at ≡ some claimed_at
      → Stale claimed_at times
      → ((crash_rounds times j).status ≡ running)
        × ((crash_rounds times j).attempts ≡ j.attempts + length times)
  unfolding crash_rounds
  running_rounds [] claimed_at j runs live at stale = (runs, omega arith)
  running_rounds (now ∷ times) claimed_at j runs live at stale =
      let next = claim_job locked worker_id concurrency claim_timeout now j in
      let (r, n) =
        running_rounds times now next (claimed_status now j) (claimed_deleted now j live)
          (claimed_time now j) stale.1 in
      rw (stale_due now claimed_at j runs live at stale.0, crash_rounds)
        (r, omega (arith, n, claimed_attempts now j))

  -- A queued job whose worker dies in every one of its runs is claimed again each time its claim has
  -- timed out, however many attempts it is allowed: the number of its attempts grows with every claim,
  -- and it never ends.
  pub crash_rounds_lem :
      (first : ℕ) (times : List ℕ) (j : Job)
      → j.status ≡ queued
      → j.deleted ≡ false
      → Stale first times
      → let j' = crash_rounds (first ∷ times) j in
        (j'.status ≡ running) × (j'.attempts ≡ j.attempts + length (first ∷ times))
  unfolding crash_rounds
  crash_rounds_lem first times j waits live stale =
      let next = claim_job locked worker_id concurrency claim_timeout first j in
      let (r, n) =
        running_rounds times first next (claimed_status first j) (claimed_deleted first j live)
          (claimed_time first j) stale in
      rw (queued_due first j waits live, crash_rounds)
        (r, omega (arith, n, claimed_attempts first j))
