-- ===== src/Ble.antt =====
-- crates/hap-ble/src: HAP over Bluetooth LE.
pub mod Types
pub mod Session
pub mod Pdu
pub mod Advert
pub mod Values
pub mod Accessory
mod Runs
