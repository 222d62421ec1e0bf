-- ===== src/Indexes.antt =====
-- flavorag-server/app/services/index_lifecycle.py: `IndexLifecycleService`.
pub mod Lifecycle
pub mod Consistency
pub mod Promotion
pub mod Batches
pub mod Polling
mod Tests
