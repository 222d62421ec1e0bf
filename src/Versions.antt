-- ===== src/Versions.antt =====
-- flavorag-server/app/services/document_diff.py: what has changed between two versions of a document.
pub mod Diff
mod Tests
