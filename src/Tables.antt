-- ===== src/Tables.antt =====
-- flavorag-server/app/ingestion/pdf/table_merger.py: tables that a page break divides.
pub mod Values
pub mod Blocks
pub mod Merger
pub mod Rows
pub mod Headers
pub mod Continued
mod Tests
