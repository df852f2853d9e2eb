-- ===== src/Chunked.antt =====
-- src/transport/chunked.ts: a body as numbered chunk messages, and back.
pub mod Sender
pub mod Reassembler
pub mod Delivery
pub mod Router
