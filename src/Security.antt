-- ===== src/Security.antt =====
-- flavorag-server/app/security/access.py and security/service.py: who may read or change what; and
-- services/approval.py: the life of a document under review.
pub mod Access
pub mod Service
pub mod Policy
pub mod Scope
pub mod Approval
mod Tests
