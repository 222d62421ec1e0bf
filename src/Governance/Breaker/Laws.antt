-- ===== src/Governance/Breaker/Laws.antt =====
-- What the breaker keeps, and when it lets a call through.
use flavor_rag.Governance.Breaker.Defs.{
  Breaker, new_breaker, state, closed, half_open, Outcome, returned, raised, failed, circuit_open,
  call, Event, failure, success, handle, gauge_value,
}
use flavor_rag.Prelude.{ℕ, ◌+◌, ◌≤◌, ◌<◌, ◌≡◌, false, none, some, ◌⊎◌, arith, truthy, String}

-- The count of failures and the opening agree, and the exported gauge shows the opening.
pub record IsValid (b : Breaker) : Type 0 where
  pub positive : 1 ≤ b.failure_threshold
  pub tripped : (b.failure_threshold ≤ b.failures) ⊎ (b.opened_at ≡ none)
  pub shown : (truthy b.name ≡ false) ⊎ (b.gauge ≡ gauge_value b.opened_at)

-- A new breaker is valid, and every failure and success that is recorded keeps it so.
pub handle-IsValid :
    (threshold timeout : ℕ) (name : String) (b : Breaker) (e : Event)
    → IsValid (new_breaker threshold timeout name) × (IsValid b → IsValid (handle b e))
unfolding new_breaker handle gauge_value
handle-IsValid threshold timeout name b (failure now) = (ground arith, λ v. ground arith)
handle-IsValid threshold timeout name b success = (ground arith, λ v. ground arith)

-- While the recovery time has not passed, a call is refused and changes nothing, however the
-- operation would have ended.
pub call-circuit_open :
    {A E : Type 0} (b : Breaker) (now later opened : ℕ) (outcome : Outcome A E)
    → b.opened_at ≡ some opened
    → now < opened + b.recovery_timeout
    → call b now outcome later ≡ (b, circuit_open)
unfolding call state
call-circuit_open b now later opened outcome e h = ground arith

-- Of a valid breaker that has been open for its recovery time, the next call is a probe: it runs,
-- success closes the breaker for good, and a failure opens it again at once, at the failure's time.
pub call_probe :
    {A E : Type 0} (b : Breaker) (now later opened : ℕ) (a : A) (x : E)
    → IsValid b
    → b.opened_at ≡ some opened
    → opened + b.recovery_timeout ≤ now
    → (state b now ≡ half_open)
      × ((t : ℕ) → state (call {A = A} {E = E} b now (returned a) later).0 t ≡ closed)
      × ((call {A = A} {E = E} b now (raised x) later).0.opened_at ≡ some later)
      × ((call {A = A} {E = E} b now (raised x) later).1 ≡ failed x)
unfolding call state
call_probe b now later opened a x v e h =
    (ground arith, λ t. ground arith, ground arith, ground arith)
