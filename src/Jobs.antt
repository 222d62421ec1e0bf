-- ===== src/Jobs.antt =====
-- flavorag-server/app/services/ingestion_jobs.py: the outbox of ingestion jobs and the worker that
-- claims and runs them.
pub mod Store
pub mod Enqueue
pub mod Worker
pub mod Claims
pub mod Failures
pub mod Lifetime
pub mod Idempotence
pub mod Crashes
mod Tests
