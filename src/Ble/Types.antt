-- ===== src/Ble/Types.antt =====
-- crates/hap-ble/src/error.rs, and the opcodes of crates/hap-ble/src/pdu.rs.
use Prim.Native.String.{String}
use hap_rust.Common.{ℕ}
use hap_rust.Tlv8.Types.{Tlv8Error}
use hap_rust.Crypto.Types.{CryptoError}
use hap_rust.Model.Types.{ModelError}

pub data BleError : Type 0 where
  tlv8 : Tlv8Error → BleError
  crypto : CryptoError → BleError
  model : ModelError → BleError
  accessory_not_found : BleError
  characteristic_not_found : ℕ → ℕ → BleError
  malformed_pdu : String → BleError
  pairing_rejected request_rejected : ℕ → BleError
  disconnected : BleError
  backend : String → BleError
  no_advert_source : BleError

pub data OpCode : Type 0 where
  characteristic_signature_read characteristic_write characteristic_read : OpCode
  characteristic_config protocol_config : OpCode

-- `op as u8`
abbrev pub op_byte : OpCode → ℕ
op_byte characteristic_signature_read = 0x01
op_byte characteristic_write = 0x02
op_byte characteristic_read = 0x03
op_byte characteristic_config = 0x07
op_byte protocol_config = 0x08
