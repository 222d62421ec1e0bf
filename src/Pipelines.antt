-- ===== src/Pipelines.antt =====
-- flavorag-server/app/ingestion/pipeline_engine.py: the pipelines of nodes that ingest a document.
pub mod Nodes
pub mod Retries
pub mod Engine
pub mod Chains
pub mod Validation
pub mod Visits
pub mod Rounds
pub mod Bounds
pub mod Runs
pub mod Reports
mod Tests
