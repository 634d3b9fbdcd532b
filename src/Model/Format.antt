-- ===== src/Model/Format.antt =====
-- crates/hap-model/src/format.rs: the formats and values of characteristics. A string is given by its UTF-8
-- bytes; the floats of the machine are a parameter `F`.
use hap_rust.Common.{ℕ, ◌-◌, ◌^◌, List, Option, none, some, Bool, ℤ}

pub data CharFormat : Type 0 where
  bool uint8 uint16 uint32 uint64 int float string tlv8 data_format : CharFormat

abbrev pub uint_max : CharFormat → Option ℕ
uint_max uint8 = some (2 ^ 8 - 1)
uint_max uint16 = some (2 ^ 16 - 1)
uint_max uint32 = some (2 ^ 32 - 1)
uint_max uint64 = some (2 ^ 64 - 1)
uint_max other = none

pub data CharValue (F : Type 0) : Type 0 where
  bool_value : Bool → CharValue F
  int_value : ℤ → CharValue F
  uint_value : ℕ → CharValue F
  float_value : F → CharValue F
  str_value bytes_value : List ℕ → CharValue F
