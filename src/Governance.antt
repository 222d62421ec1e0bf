-- ===== src/Governance.antt =====
-- flavorag-server/app/rag/governance.py: the circuit breaker around a retrieval channel, the shares
-- that the channels get of the candidate budget, and the choice of the answer's context.
pub mod Budget
pub mod Tokens
pub mod Scores
pub mod Breaker
pub mod Channels
pub mod Context
mod Tests
