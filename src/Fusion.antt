-- ===== src/Fusion.antt =====
-- flavorag-server/app/rag/postprocess/fusion.py: the results of several channels in one ranking.
pub mod Defs
pub mod Duplicates
pub mod Totals
mod Tests
