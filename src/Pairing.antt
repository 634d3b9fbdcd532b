-- ===== src/Pairing.antt =====
-- crates/hap-pairing/src: the exchanges of pairing over a session.
pub mod Types
pub mod Admin
pub mod Store
mod Runs
