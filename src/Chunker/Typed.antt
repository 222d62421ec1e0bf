-- ===== src/Chunker/Typed.antt =====
-- `_BlockAwareChunker`: typed blocks, a sub-chunker for each type, and the packing of small chunks.
pub mod Patterns
pub mod Parsing
pub mod Coverage
pub mod Parts
pub mod Paragraphs
pub mod Merging
pub mod Groups
pub mod CodeLines
pub mod Sentences
pub mod Whole
mod Tests
