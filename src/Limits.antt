-- ===== src/Limits.antt =====
-- flavorag-server/app/worker/distributed_lock.py and rag/quota.py: limits that are kept in dictionaries.
pub mod Lock
pub mod Quota
mod Tests
