-- ===== src/Dut.antt =====
-- crates/hap-thread-dut/src: the software accessory. Its PDU codec stands with that of the controller,
-- in `Thread.Accessory`.
pub mod Hap
pub mod Session
pub mod Verify
pub mod Setup
pub mod Agreement
mod Runs
