-- ===== src/Model.antt =====
-- crates/hap-model/src: the characteristic model.
pub mod Types
pub mod Format
pub mod Json
