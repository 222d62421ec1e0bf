-- ===== src/Governance/Breaker/Defs.antt =====
-- The state and the methods of `CircuitBreaker`.
use flavor_rag.Prelude.{
  ℕ, ◌+◌, max, Bool, true, false, Option, none, some, String, leb, if◌then◌else◌, truthy,
}

-- `gauge` is the value last exported to the metric CIRCUIT_BREAKER_OPEN under the breaker's name.
pub record Breaker : Type 0 where
  pub failure_threshold : ℕ
  pub recovery_timeout : ℕ
  pub failures : ℕ
  pub opened_at : Option ℕ
  pub name : String
  pub gauge : ℕ

-- `__init__`: the threshold is at least 1. A negative argument acts as 0.
unfoldable pub new_breaker : ℕ → ℕ → String → Breaker
new_breaker failure_threshold recovery_timeout name = record {
  failure_threshold = max 1 failure_threshold;
  recovery_timeout = recovery_timeout;
  failures = 0;
  opened_at = none;
  name = name;
  gauge = 0;
}

pub data State : Type 0 where
  closed half_open open_ : State

-- The property `state`: `now - opened_at >= recovery_timeout`, with no subtraction.
unfoldable pub state_at : Option ℕ → ℕ → ℕ → State
state_at none timeout now = closed
state_at (some opened) timeout now = if leb (opened + timeout) now then half_open else open_

unfoldable pub state : Breaker → ℕ → State
unfolding state_at
state b now = state_at b.opened_at b.recovery_timeout now

unfoldable pub gauge_value : Option ℕ → ℕ
gauge_value none = 0
gauge_value (some opened) = 1

-- `_export_state`
unfoldable pub export_state : Breaker → Breaker
unfolding gauge_value
export_state b = if truthy b.name then record b { gauge = gauge_value b.opened_at } else b

unfoldable pub record_failure : Breaker → ℕ → Breaker
unfolding export_state
record_failure b now =
    let failures = b.failures + 1 in
    export_state (record b {
      failures = failures;
      opened_at = if leb b.failure_threshold failures then some now else b.opened_at;
    })

unfoldable pub record_success : Breaker → Breaker
unfolding export_state
record_success b = export_state (record b { failures = 0; opened_at = none })

-- `before_call`: false stands for the exception CircuitOpenError.
unfoldable pub before_call : Breaker → ℕ → Bool
unfolding state
before_call b now = elim (state b now) [ open_ ↦ false | _ ↦ true ]

-- How the awaited operation ends: its result, or the exception that it raises.
pub data Outcome (A E : Type 0) : Type 0 where
  returned : A → Outcome A E
  raised : E → Outcome A E

pub data CallResult (A E : Type 0) : Type 0 where
  result : A → CallResult A E
  failed : E → CallResult A E
  circuit_open : CallResult A E

unfoldable pub settle : {A E : Type 0} → Breaker → Outcome A E → ℕ → Breaker × CallResult A E
unfolding record_failure record_success
settle b (returned a) later = (record_success b, result a)
settle b (raised e) later = (record_failure b later, failed e)

-- `call`, with the clock at its start and at its end, when no other task runs in between.
unfoldable pub call : {A E : Type 0} → Breaker → ℕ → Outcome A E → ℕ → Breaker × CallResult A E
unfolding before_call settle
call b now outcome later = if before_call b now then settle b outcome later else (b, circuit_open)

-- What the event loop may do with one breaker, in any order: concurrent calls overlap at their
-- `await`, so that their ends come one by one, each at its own clock reading.
pub data Event : Type 0 where
  failure : ℕ → Event
  success : Event

unfoldable pub handle : Breaker → Event → Breaker
unfolding record_failure record_success
handle b (failure now) = record_failure b now
handle b success = record_success b
