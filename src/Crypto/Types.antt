-- ===== src/Crypto/Types.antt =====
-- crates/hap-crypto/src/error.rs and tlv_types.rs: the errors and the TLV8 types of pairing.
use Prim.Native.String.{String}
use hap_rust.Common.{ℕ}
use hap_rust.Tlv8.Types.{Tlv8Error}

pub data CryptoError : Type 0 where
  srp_bad_parameters : String → CryptoError
  srp_proof_mismatch : CryptoError
  encoding : String → CryptoError
  tlv : Tlv8Error → CryptoError
  kdf : String → CryptoError
  aead : CryptoError
  signature : CryptoError

abbrev pub tlv_method : ℕ
tlv_method = 0x00

abbrev pub tlv_identifier : ℕ
tlv_identifier = 0x01

abbrev pub tlv_salt : ℕ
tlv_salt = 0x02

abbrev pub tlv_public_key : ℕ
tlv_public_key = 0x03

abbrev pub tlv_proof : ℕ
tlv_proof = 0x04

abbrev pub tlv_encrypted_data : ℕ
tlv_encrypted_data = 0x05

abbrev pub tlv_state : ℕ
tlv_state = 0x06

abbrev pub tlv_error : ℕ
tlv_error = 0x07

abbrev pub tlv_signature : ℕ
tlv_signature = 0x0A

abbrev pub method_pair_setup : ℕ
method_pair_setup = 0x00
