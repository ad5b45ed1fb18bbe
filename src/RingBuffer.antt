-- ===== src/RingBuffer.antt =====
-- crates/peering/src/ring_buffer: the chunk windows of blob transfers.
pub mod Inbound
pub mod Outbound
pub mod Buffer
