-- ===== src/Transport.antt =====
-- crates/hap-transport/src: the encrypted session over IP.
pub mod Types
pub mod Record
pub mod Session
pub mod Text
pub mod Http
mod Runs
