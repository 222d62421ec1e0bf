-- ===== src/Governance/Breaker/Runs.antt =====
-- Runs of failures: how many it takes to open the breaker, and for how long.
use flavor_rag.Governance.Breaker.Defs.{
  Breaker, State, state, open_, closed, half_open, record_failure, failure, success, handle,
}
use flavor_rag.Prelude.{
  ℕ, ◌+◌, ◌≡◌, refl, List, [], ◌∷◌, some, Option, arith, leb, if◌then◌else◌, length,
}

-- Failures are recorded at the given times, one after another.
unfoldable pub fail_at : Breaker → List ℕ → Breaker
unfolding handle
fail_at b [] = b
fail_at b (t ∷ ts) = fail_at (handle b (failure t)) ts

abbrev last : ℕ → List ℕ → ℕ
last t [] = t
last t (u ∷ us) = last u us

abbrev opened_after : ℕ → ℕ → Option ℕ → List ℕ → Option ℕ
opened_after threshold before opened [] = opened
opened_after threshold before opened (t ∷ ts) =
    if leb threshold (before + length (t ∷ ts)) then some (last t ts) else opened

fail_at-opened :
    (b : Breaker) (ts : List ℕ)
    → ((fail_at b ts).opened_at ≡ opened_after b.failure_threshold b.failures b.opened_at ts)
      × ((fail_at b ts).recovery_timeout ≡ b.recovery_timeout)
unfolding fail_at record_failure
fail_at-opened b [] = (refl, refl)
fail_at-opened b (t ∷ []) = (ground arith, ground arith)
fail_at-opened b (t ∷ u ∷ us) =
    let ih = fail_at-opened (handle b (failure t)) (u ∷ us) in
    (ground (arith, ih), ground (arith, ih))

-- What a run of failures without a success in between should lead to: below the threshold the
-- breaker stays closed; from the threshold on it is open until the recovery time has passed since
-- the last failure, and half open from then on.
abbrev pub expected : ℕ → ℕ → List ℕ → ℕ → State
expected threshold timeout [] now = closed
expected threshold timeout (t ∷ ts) now =
    if leb threshold (length (t ∷ ts))
    then (if leb (last t ts + timeout) now then half_open else open_)
    else closed

-- After a success, whatever came before it, the state of the breaker is determined by the failures
-- since then, by its threshold and by its recovery time.
pub state-fail_at :
    (b : Breaker) (ts : List ℕ) (now : ℕ)
    → state (fail_at (handle b success) ts) now
      ≡ expected b.failure_threshold b.recovery_timeout ts now
unfolding state handle
state-fail_at b [] now = ground (arith, fail_at-opened (handle b success) [])
state-fail_at b (t ∷ ts) now = ground (arith, fail_at-opened (handle b success) (t ∷ ts))
