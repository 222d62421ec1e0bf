-- ===== src/Sync.antt =====
-- flavorag-server/app/services/index_sync.py: `IndexSyncService`, the cleanup of the external indexes.
pub mod Cleanup
pub mod Settled
mod Tests
