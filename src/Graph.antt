-- ===== src/Graph.antt =====
-- flavorag-server/app/rag/graph/expansion.py: the part of a knowledge graph that is shown.
pub mod Views
pub mod Expansion
pub mod Walks
mod Tests
