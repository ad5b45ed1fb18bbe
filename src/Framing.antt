-- ===== src/Framing.antt =====
-- crates/peering/src/transport/frame.rs
pub mod Sending
pub mod Reading
pub mod Written
pub mod Filling
pub mod Cases
pub mod Exact
pub mod Delivery
mod Examples
