-- ===== src/Maintenance.antt =====
-- flavorag-server/app/services/ingestion_watchdog.py and retention.py: the workers that end stale tasks
-- and remove old rows.
pub mod Watchdog
pub mod Retention
pub mod Settled
mod Tests
