-- ===== src/Pairing/Store.antt =====
-- crates/hap-pairing/src/store.rs: the persisted records and their texts. A text is given by its bytes; a
-- socket address is opaque.
pub mod Hex
pub mod Records
pub mod File
pub mod Reading
pub mod Refinement
mod Runs
use Prim.Native.String.{String}
use hap_rust.Common.{
  ℕ, zero, suc, ◌+◌, ◌-◌, ◌*◌, ◌/◌, ◌%◌, List, [], ◌∷◌, ◌++◌, Option, none, some, Result, ok, err,
  guard, ok_or, ◌>>=◌, ◌>>◌, Bool, true, false, ◌&&◌, ltb, leb, ◌==◌, if◌then◌else◌, length,
}
use hap_rust.Crypto.Primitives.{ControllerKeypair}
use hap_rust.Crypto.PairVerify.Types.{AccessoryPairing}
use hap_rust.Crypto.Broadcast.{BroadcastKey, from_bytes}
use hap_rust.Transport.Text.{from_str_radix}
use hap_rust.Pairing.Types.{PairingError, malformed}

pub record StoredBroadcast : Type 0 where
  pub key : BroadcastKey
  pub gsn : ℕ

pub data StoredTransport (A : Type 0) : Type 0 where
  ip : (addr : A) → StoredTransport A
  ble : (device_id : List ℕ) (broadcast : Option StoredBroadcast) → StoredTransport A

pub record StoredAccessory (A : Type 0) : Type 0 where
  pub pairing : AccessoryPairing
  pub transport : StoredTransport A

pub record ControllerRecord : Type 0 where
  pub id : List ℕ
  pub signing_key_hex : List ℕ

pub record BroadcastRecord : Type 0 where
  pub key_hex : List ℕ
  pub gsn : ℕ

pub data TransportRecord (A : Type 0) : Type 0 where
  ip_record : (addr : A) → TransportRecord A
  ble_record : (device_id : List ℕ) (broadcast : Option BroadcastRecord) → TransportRecord A

-- `addr` is the field of the first version of the file.
pub record AccessoryRecord (A : Type 0) : Type 0 where
  pub id : List ℕ
  pub ltpk_hex : List ℕ
  pub transport : Option (TransportRecord A)
  pub addr : Option A

pub record Document (A : Type 0) : Type 0 where
  pub version : Option ℕ
  pub controller : Option ControllerRecord
  pub accessories : List (AccessoryRecord A)

-- `{:x}` of a nibble
abbrev pub lower_hex : ℕ → ℕ
lower_hex n = if ltb n 10 then 48 + n else 87 + n

-- `{:02x}` of a byte
abbrev pub two_digits : ℕ → List ℕ
two_digits b = lower_hex (b / 16) ∷ lower_hex (b % 16) ∷ []

unfoldable pub encode_hex : List ℕ → List ℕ
encode_hex [] = []
encode_hex (b ∷ bs) = two_digits b ++ encode_hex bs

unfoldable pub hex_digit : ℕ → Result PairingError ℕ
hex_digit c =
    if leb 48 c && leb c 57
    then ok (c - 48)
    else if leb 97 c && leb c 102
    then ok (c - 97 + 10)
    else if leb 65 c && leb c 70
    then ok (c - 65 + 10)
    else err (malformed "non-hex digit in key")

-- The loop over pairs of digits.
unfoldable pub decode_pairs : List ℕ → Result PairingError (List ℕ)
unfolding hex_digit
decode_pairs (a ∷ b ∷ rest) = do
  hi ← hex_digit a
  lo ← hex_digit b
  out ← decode_pairs rest
  ok ((hi * 16 + lo) ∷ out)
decode_pairs _ = ok []

unfoldable pub decode_key_32 : List ℕ → Result PairingError (List ℕ)
unfolding decode_pairs
decode_key_32 s = do
  guard (length s == 64) (malformed "expected 64 hex chars (32 bytes)")
  decode_pairs s

-- `.join(":")`
unfoldable pub join_colon : List (List ℕ) → List ℕ
join_colon [] = []
join_colon (p ∷ []) = p
join_colon (p ∷ q ∷ ps) = p ++ b':' ∷ join_colon (q ∷ ps)

abbrev pub each_two_digits : List ℕ → List (List ℕ)
each_two_digits [] = []
each_two_digits (b ∷ bs) = two_digits b ∷ each_two_digits bs

unfoldable pub format_device_id : List ℕ → List ℕ
unfolding join_colon
format_device_id id = join_colon (each_two_digits id)

abbrev pub put_front : ℕ → List (List ℕ) → List (List ℕ)
put_front b [] = (b ∷ []) ∷ []
put_front b (p ∷ ps) = (b ∷ p) ∷ ps

-- `s.split(':')`
unfoldable pub split_colon : List ℕ → List (List ℕ)
split_colon [] = [] ∷ []
split_colon (b ∷ bs) = if b == b':' then [] ∷ split_colon bs else put_front b (split_colon bs)

-- The loop over the slots that are left to fill.
unfoldable pub fill_slots : ℕ → List (List ℕ) → Option (List ℕ)
fill_slots zero [] = some []
fill_slots zero (p ∷ ps) = none
fill_slots (suc n) [] = none
fill_slots (suc n) (p ∷ ps) =
    if length p == 2
    then elim (from_str_radix 16 255 p) [
      | none ↦ none
      | some b ↦ elim (fill_slots n ps) [ none ↦ none | some out ↦ some (b ∷ out) ]
    ]
    else none

unfoldable pub parse_device_id : List ℕ → Option (List ℕ)
unfolding split_colon fill_slots
parse_device_id s = fill_slots 6 (split_colon s)

-- The seed is what is kept of the controller's key.
unfoldable pub controller_to_record : ControllerKeypair → ControllerRecord
controller_to_record k = record { id = k.id; signing_key_hex = encode_hex k.signing }

unfoldable pub controller_from_record : ControllerRecord → Result PairingError ControllerKeypair
controller_from_record r = do
  seed ← decode_key_32 r.signing_key_hex
  ok (record { id = r.id; signing = seed })

unfoldable pub broadcast_record : StoredBroadcast → BroadcastRecord
broadcast_record b = record { key_hex = encode_hex b.key.bytes; gsn = b.gsn }

abbrev pub maybe_record : Option StoredBroadcast → Option BroadcastRecord
maybe_record none = none
maybe_record (some b) = some (broadcast_record b)

unfoldable pub stored_broadcast : BroadcastRecord → Result PairingError StoredBroadcast
stored_broadcast r = do
  key ← decode_key_32 r.key_hex
  ok (record { key = from_bytes key; gsn = r.gsn })

-- `.map(..).transpose()`
abbrev pub maybe_stored : Option BroadcastRecord → Result PairingError (Option StoredBroadcast)
maybe_stored none = ok none
maybe_stored (some r) = stored_broadcast r >>= λ b. ok (some b)

module _ {A : Type 0} where
  abbrev pub transport_record : StoredTransport A → TransportRecord A
  transport_record (ip addr) = ip_record addr
  transport_record (ble device_id broadcast) =
      ble_record (format_device_id device_id) (maybe_record broadcast)

  unfoldable pub accessory_to_record : StoredAccessory A → AccessoryRecord A
  accessory_to_record a = record {
    id = a.pairing.pairing_id;
    ltpk_hex = encode_hex a.pairing.ltpk;
    transport = some (transport_record a.transport);
    addr = none;
  }

  unfoldable pub stored_transport :
      Option (TransportRecord A) → Option A → Result PairingError (StoredTransport A)
  stored_transport (some (ip_record addr)) legacy = ok (ip addr)
  stored_transport (some (ble_record device_id broadcast)) legacy = do
    id ← ok_or (parse_device_id device_id) (malformed "malformed BLE device id")
    b ← maybe_stored broadcast
    ok (ble id b)
  stored_transport none (some addr) = ok (ip addr)
  stored_transport none none = err (malformed "record has no transport")

  unfoldable pub accessory_from_record : AccessoryRecord A → Result PairingError (StoredAccessory A)
  unfolding stored_transport
  accessory_from_record r = do
    ltpk ← decode_key_32 r.ltpk_hex
    transport ← stored_transport r.transport r.addr
    ok (record { pairing = record { pairing_id = r.id; ltpk = ltpk }; transport = transport })
