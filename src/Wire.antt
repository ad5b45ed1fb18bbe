-- ===== src/Wire.antt =====
-- crates/peering/src/wire.rs
pub mod Bytes
pub mod Header
pub mod RoundTrip
pub mod Utf8
pub mod Payloads
pub mod PayloadLaws
mod Examples
