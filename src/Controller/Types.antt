-- ===== src/Controller/Types.antt =====
-- crates/hap-controller/src/error.rs: the one error type of the library.
use Prim.Native.String.{String}
use hap_rust.Common.{ℕ, List}
use hap_rust.Tlv8.Types.{Tlv8Error}
use hap_rust.Crypto.Types.{CryptoError}
use hap_rust.Transport.Types.{TransportError}
use hap_rust.Pairing.Types.{PairingError}
use hap_rust.Model.Types.{ModelError}
use hap_rust.Ble.Types.{BleError}

pub data HapError : Type 0 where
  tlv8 : Tlv8Error → HapError
  crypto : CryptoError → HapError
  transport : TransportError → HapError
  pairing : PairingError → HapError
  model : ModelError → HapError
  unknown_accessory : List ℕ → HapError
  characteristic_not_found : (aid iid : ℕ) → HapError
  http : (status : ℕ) → HapError
  unsupported_by_transport : String → HapError
  ble : BleError → HapError
  ambiguous_match : List (List ℕ) → HapError
  invalid_setup_code connection_lost invalid_setup_payload no_matching_accessory : HapError
