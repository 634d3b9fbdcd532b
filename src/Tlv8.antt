-- ===== src/Tlv8.antt =====
-- crates/hap-tlv8/src: the type-length-value codec of HAP. An item is a type byte and its value.
-- The decoder is in `Tlv8.Reader`, the encoder in `Tlv8.Writer`, the typed getters in `Tlv8.Map`.
pub mod Types
pub mod Reader
pub mod Writer
pub mod Map
pub mod Fragments
pub mod RoundTrip
pub mod Getters
mod Runs
