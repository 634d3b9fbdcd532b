-- ===== src/Pairing/Types.antt =====
-- crates/hap-pairing/src/error.rs, the session interface of crates/hap-pairing/src/wire.rs, and the
-- constants of crates/hap-pairing/src/pairings.rs.
use Prim.Native.String.{String}
use hap_rust.Common.{ℕ, List, Result}
use hap_rust.Tlv8.Types.{Tlv8Error}
use hap_rust.Crypto.Types.{CryptoError}
use hap_rust.Transport.Types.{TransportError}

pub data PairingError : Type 0 where
  tlv8 : Tlv8Error → PairingError
  crypto : CryptoError → PairingError
  transport : TransportError → PairingError
  store : String → PairingError
  accessory : ℕ → PairingError
  malformed : String → PairingError
  unknown_accessory : String → PairingError
  wrong_transport : PairingError

-- What a session of state `S` answers to a body posted to a path.
pub record PairingSession (S : Type 0) : Type 0 where
  pub post_tlv8 : String → List ℕ → S → Result PairingError (List ℕ) × S

abbrev pub tlv_method : ℕ
tlv_method = 0x00

abbrev pub tlv_identifier : ℕ
tlv_identifier = 0x01

abbrev pub tlv_public_key : ℕ
tlv_public_key = 0x03

abbrev pub tlv_state : ℕ
tlv_state = 0x06

abbrev pub tlv_error : ℕ
tlv_error = 0x07

abbrev pub tlv_permissions : ℕ
tlv_permissions = 0x0B

abbrev pub method_add : ℕ
method_add = 3

abbrev pub method_remove : ℕ
method_remove = 4

abbrev pub method_list : ℕ
method_list = 5

abbrev pub state_m1 : ℕ
state_m1 = 0x01

abbrev pub state_m2 : ℕ
state_m2 = 0x02

abbrev pub perm_admin : ℕ
perm_admin = 0x01

abbrev pub perm_user : ℕ
perm_user = 0x00
