-- ===== src/Chunker.antt =====
-- flavorag-server/app/ingestion/chunker.py: the fixed-window chunker, and the normalisation of the text
-- before it.
pub mod Chars
pub mod Fixed
pub mod Windows
pub mod Coverage
pub mod Normalize
pub mod Stuck
pub mod Plain
pub mod Structure
pub mod Typed
mod Tests
