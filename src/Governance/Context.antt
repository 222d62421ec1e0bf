-- ===== src/Governance/Context.antt =====
-- `select_context` and `_kb_distribution` of governance.py.
pub mod Defs
pub mod Greedy
pub mod Quota
pub mod Ranking
