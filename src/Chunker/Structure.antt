-- ===== src/Chunker/Structure.antt =====
-- `_StructureAwareChunker`: blocks of lines, packed into chunks.
pub mod Lines
pub mod Blocks
pub mod Packing
pub mod Scanning
pub mod Segments
pub mod Loss
mod Tests
