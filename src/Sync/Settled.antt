-- ===== src/Sync/Settled.antt =====
-- How an attempt at a cleanup ends.
use flavor_rag.Prelude.{
  ℕ, zero, suc, String, List, [], ◌∷◌, Option, none, some, ◌⊎◌, ◌↔◌, inl, inr, ◌≡◌, ◌≤◌, ◌+◌, ◌*◌,
  ◌^◌, min, filter, map, Member, Option-cases, arith, refl,
}
use flavor_rag.Sync.Cleanup.{
  SyncJob, running, retry, success, operations, has_failed, conclude, statuses_of, retry_job,
}

two_pow_bounds : (k : ℕ) → k ≤ 6 → (1 ≤ 2 ^ k) × (2 ^ k ≤ 64)
two_pow_bounds zero h = (omega arith, omega arith)
two_pow_bounds (suc zero) h = (omega arith, omega arith)
two_pow_bounds (suc (suc zero)) h = (omega arith, omega arith)
two_pow_bounds (suc (suc (suc zero))) h = (omega arith, omega arith)
two_pow_bounds (suc (suc (suc (suc zero)))) h = (omega arith, omega arith)
two_pow_bounds (suc (suc (suc (suc (suc zero))))) h = (omega arith, omega arith)
two_pow_bounds (suc (suc (suc (suc (suc (suc zero)))))) h = (omega arith, omega arith)
two_pow_bounds (suc (suc (suc (suc (suc (suc (suc n))))))) h = absurd (omega arith)

delay_bounds :
    (attempts : ℕ) → (1 ≤ min 60 (2 ^ min attempts 6)) × (min 60 (2 ^ min attempts 6) ≤ 60)
delay_bounds attempts =
    let b = two_pow_bounds (min attempts 6) (omega arith) in (omega (arith, b), omega arith)

module _ (ended : List String → List String) (run : String → SyncJob → Option String)
    (complete : (names : List String) (n : String) → Member n (ended names) ↔ Member n names) where
  none_failed :
      (j : SyncJob) (names : List String)
      → filter has_failed (map (λ name. (name, run name j)) names) ≡ []
      → (n : String) → Member n names
      → run n j ≡ none
  none_failed j [] h n m = absurd m
  none_failed j (x ∷ names) h n m = elim (Option-cases (run x j)) [
    | inr (error, e) ↦ cc (rw e at h)
    | inl e ↦ elim m [ inl same ↦ rw same e | inr k ↦ none_failed j names (rw e at h) n k ]
  ]

  some_failed :
      (j : SyncJob) (names : List String) (f : String × Option String)
      (fs : List (String × Option String))
      → filter has_failed (map (λ name. (name, run name j)) names) ≡ f ∷ fs
      → (n : String) × Member n names × ((error : String) × (run n j ≡ some error))
  some_failed j [] f fs h = cc h
  some_failed j (x ∷ names) f fs h = elim (Option-cases (run x j)) [
    | inr (error, e) ↦ (x, inl refl, (error, e))
    | inl e ↦ let (n, m, failure) = some_failed j names f fs (rw e at h) in (n, inr m, failure)
  ]

  -- The job `j`, running, has been attempted, and `j'` is what has become of it.
  abbrev pub Settled : ℕ → ℕ → SyncJob → SyncJob → Type 0
  Settled now most j j' =
      (j'.attempts ≡ j.attempts)
      × ((j'.status ≡ success)
            × (j'.last_error ≡ none)
            × (j'.next_retry_time ≡ none)
            × ((n : String) → Member n (operations j) → run n j ≡ none)
          ⊎ (j'.status ≡ retry)
            × ((n : String) × Member n (operations j) × ((error : String) × (run n j ≡ some error)))
            × ((t : ℕ) × (j'.next_retry_time ≡ some t) × (now + 60 ≤ t) × (t ≤ now + 60 * most)))

  conclude-Settled :
      (now delay most : ℕ) (j : SyncJob)
      → 1 ≤ delay
      → delay ≤ most
      → Settled now most j (conclude now delay (statuses_of ended run j) j)
  unfolding conclude
  conclude-Settled now delay most j low high =
      by_failed (filter has_failed (statuses_of ended run j)) refl
    where
      by_failed :
          (fs : List (String × Option String))
          → filter has_failed (statuses_of ended run j) ≡ fs
          → Settled now most j (conclude now delay (statuses_of ended run j) j)
      by_failed [] e =
          rw (e, conclude)
            (
              refl,
              inl (
                refl,
                refl,
                refl,
                λ n m. none_failed j (ended (operations j)) e n ((complete (operations j) n).1 m),
              ),
            )
      by_failed (f ∷ fs) e =
          let (n, m, failure) = some_failed j (ended (operations j)) f fs e in
          rw (e, conclude)
            (
              refl,
              inr (
                refl,
                (n, (complete (operations j) n).0 m, failure),
                (now + 60 * delay, refl, omega (arith, low), omega (arith, high)),
              ),
            )

  -- The job as it is attempted again.
  abbrev pub started : SyncJob → SyncJob
  started j = record j { status = running; attempts = j.attempts + 1 }

  -- A job that is tried again never stays running: it is done exactly when every operation of the
  -- attempt has succeeded, and otherwise some operation has failed and the job is to be tried again
  -- after 1 to 60 minutes. The operations may end in any order.
  pub retry_job-Settled :
      (now : ℕ) (j : SyncJob) → Settled now 60 (started j) (retry_job ended run now j)
  unfolding retry_job
  retry_job-Settled now j =
      let b = delay_bounds (j.attempts + 1) in
      conclude-Settled now (min 60 (2 ^ min (j.attempts + 1) 6)) 60 (started j) b.0 b.1
