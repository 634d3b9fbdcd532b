-- ===== src/Tlv8/Types.antt =====
-- crates/hap-tlv8/src/error.rs and lib.rs: the errors, the items and the separator type.
use hap_rust.Common.{ℕ, List}

pub data Tlv8Error : Type 0 where
  unexpected_eof : Tlv8Error
  -- the width asked for, and the number of bytes stored
  integer_too_large : ℕ → ℕ → Tlv8Error

-- `(u8, Vec<u8>)`
abbrev pub Item : Type 0
Item = ℕ × List ℕ

abbrev pub separator : ℕ
separator = 0xFF
