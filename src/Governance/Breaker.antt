-- ===== src/Governance/Breaker.antt =====
-- `CircuitBreaker` of governance.py. Clock readings and durations are numbers of one unit (ticks);
-- a method that reads the clock takes the reading as an argument.
pub mod Defs
mod Laws
mod Runs
pub use Laws.*
pub use Runs.*
