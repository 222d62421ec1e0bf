-- ===== src/Governance/Channels.antt =====
-- `run_search_channels` and `rejection_reason_for_channels` of governance.py.
pub mod Defs
pub mod Lanes
pub mod Shares
pub mod Results
