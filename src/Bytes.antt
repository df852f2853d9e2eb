-- ===== src/Bytes.antt =====
-- src/util/bytes.ts: byte sequences, the block buffer and the size limits on streams.
pub mod Buffer
pub mod Streams
mod Tests
