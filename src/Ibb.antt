-- ===== src/Ibb.antt =====
-- src/ibb/ibb.ts: in-band bytestreams, sent and received by one manager of a session.
pub mod Windows
pub mod Inbound
pub mod Scheduler
pub mod Sender
pub mod Transfer
