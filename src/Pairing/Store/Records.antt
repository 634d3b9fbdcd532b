-- ===== src/Pairing/Store/Records.antt =====
-- What is kept of an accessory comes back from its record.
use hap_rust.Common.{
  ℕ, ◌≡◌, refl, List, Option, none, some, ok, length, All, IsByte, then_ok, found,
}
use hap_rust.Crypto.Primitives.{ControllerKeypair}
use hap_rust.Pairing.Types.{malformed}
use hap_rust.Pairing.Store.{
  StoredBroadcast, StoredTransport, ip, ble, StoredAccessory, controller_to_record,
  controller_from_record, broadcast_record, stored_broadcast, maybe_record, maybe_stored,
  transport_record, accessory_to_record, stored_transport, accessory_from_record,
}
use hap_rust.Pairing.Store.Hex.{decode_key_32-encode_hex, parse_device_id-format_device_id}

-- An array of so many bytes.
abbrev pub IsArray : ℕ → List ℕ → Type 0
IsArray n bytes = (length bytes ≡ n) × All IsByte bytes

abbrev pub HasKey : Option StoredBroadcast → Type 0
HasKey none = Unit {0}
HasKey (some b) = IsArray 32 b.key.bytes

module _ {A : Type 0} where
  abbrev pub HasId : StoredTransport A → Type 0
  HasId (ip addr) = Unit {0}
  HasId (ble device_id broadcast) = IsArray 6 device_id × HasKey broadcast

  -- The arrays of the types have their lengths.
  abbrev pub IsStored : StoredAccessory A → Type 0
  IsStored a = IsArray 32 a.pairing.ltpk × HasId a.transport

pub controller_from_record-controller_to_record :
    (k : ControllerKeypair)
    → IsArray 32 k.signing
    → controller_from_record (controller_to_record k) ≡ ok k
unfolding controller_from_record controller_to_record
controller_from_record-controller_to_record k h =
    then_ok _ (decode_key_32-encode_hex k.signing h.0 h.1) refl

pub stored_broadcast-broadcast_record :
    (b : StoredBroadcast) → IsArray 32 b.key.bytes → stored_broadcast (broadcast_record b) ≡ ok b
unfolding stored_broadcast broadcast_record
stored_broadcast-broadcast_record b h =
    then_ok _ (decode_key_32-encode_hex b.key.bytes h.0 h.1) refl

maybe_stored-maybe_record :
    (b : Option StoredBroadcast) → HasKey b → maybe_stored (maybe_record b) ≡ ok b
maybe_stored-maybe_record none h = refl
maybe_stored-maybe_record (some b) h = then_ok _ (stored_broadcast-broadcast_record b h) refl

module _ {A : Type 0} where
  stored_transport-transport_record :
      (t : StoredTransport A) → HasId t → stored_transport (some (transport_record t)) none ≡ ok t
  unfolding stored_transport
  stored_transport-transport_record (ip addr) h = refl
  stored_transport-transport_record (ble id b) h =
      then_ok _
        (found (malformed "malformed BLE device id")
          (parse_device_id-format_device_id id h.0.0 h.0.1))
        (then_ok _ (maybe_stored-maybe_record b h.1) refl)

  pub accessory_from_record-accessory_to_record :
      (a : StoredAccessory A) → IsStored a → accessory_from_record (accessory_to_record a) ≡ ok a
  unfolding accessory_from_record accessory_to_record
  accessory_from_record-accessory_to_record a h =
      then_ok _ (decode_key_32-encode_hex a.pairing.ltpk h.0.0 h.0.1)
        (then_ok _ (stored_transport-transport_record a.transport h.1) refl)
