-- ===== src/Model/Types.antt =====
-- crates/hap-model/src/error.rs. The JSON library's error and the executor's are kept as their text.
use Prim.Native.String.{String}
use hap_rust.Common.{ℕ, ℤ}

pub data ModelError : Type 0 where
  json : String → ModelError
  unknown_format malformed_uuid : String → ModelError
  value_type value_range : String → String → ModelError
  base64 : String → ModelError
  characteristic_status : ℕ → ℕ → ℤ → ModelError
  executor : String → ModelError
