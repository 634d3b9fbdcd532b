-- ===== src/Crypto.antt =====
-- crates/hap-crypto/src: the parts of the pairing cryptography that are the program's own. The
-- primitives of the third-party crates are parameters.
pub mod Types
pub mod Aead
pub mod Primitives
pub mod PairVerify
pub mod Srp
pub mod PairSetup
pub mod Plain
pub mod Broadcast
mod Runs
