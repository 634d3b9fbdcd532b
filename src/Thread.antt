-- ===== src/Thread.antt =====
-- crates/hap-thread/src and crates/hap-thread-dut/src: HAP over Thread, the controller's side and
-- the software accessory's.
pub mod Types
pub mod Session
pub mod Coap
pub mod Pdu
pub mod Accessory
mod Runs
