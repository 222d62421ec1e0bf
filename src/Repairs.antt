-- ===== src/Repairs.antt =====
-- flavorag-server/app/services/index_reconciliation.py and index_repair.py: the vector collections are
-- compared with the chunks in the database, and what is missing is inserted again by jobs.
pub mod Vectors
pub mod Store
pub mod Reconcile
pub mod Worker
pub mod Client
pub mod Drift
pub mod Stuck
pub mod Success
mod Tests
