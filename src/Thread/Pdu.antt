-- ===== src/Thread/Pdu.antt =====
-- crates/hap-thread/src/pdu.rs: the controller's PDU codec. A position in a payload is modelled by
-- the bytes from it on. `debug_assert!` is not part of a release build and is not modelled.
pub mod Batches
pub mod Inputs
pub mod Events
use Prim.Native.String.{String}
use hap_rust.Common.{
  ℕ, zero, suc, ◌+◌, List, [], ◌∷◌, ◌++◌, Option, none, some, Result, ok, err, stuck, ◌>>=◌, ◌>>◌,
  guard, map_err, length, take, drop, bit_and, to_le_bytes, from_le_bytes, ltb, leb, ◌==◌,
  if◌then◌else◌, min,
}
use hap_rust.Tlv8.Writer.{push}
use hap_rust.Tlv8.Map
use hap_rust.Tlv8.Map.{Tlv8Map}
use hap_rust.Thread.Types.{ThreadError, malformed_pdu, tlv8, OpCode, op_byte}

abbrev pub param_value : ℕ
param_value = 0x01

-- `u16::try_from(n).unwrap_or(u16::MAX)` and the same for `u8`
abbrev pub saturate_u16 : ℕ → ℕ
saturate_u16 n = min n 0xFFFF

abbrev pub saturate_u8 : ℕ → ℕ
saturate_u8 n = min n 0xFF

unfoldable pub encode_request : OpCode → ℕ → ℕ → List ℕ → List ℕ
encode_request op tid iid body =
    0x00
    ∷ op_byte op
    ∷ tid
    ∷ (to_le_bytes 2 iid ++ (to_le_bytes 2 (saturate_u16 (length body)) ++ body))

-- The loop of `encode_all`, from the index `idx` on.
unfoldable pub encode_from : OpCode → ℕ → List (ℕ × List ℕ) → List ℕ
encode_from op idx [] = []
encode_from op idx ((iid, body) ∷ entries) =
    encode_request op (saturate_u8 idx) iid body ++ encode_from op (suc idx) entries

unfoldable pub encode_all : OpCode → List (ℕ × List ℕ) → List ℕ
unfolding encode_from
encode_all op entries = encode_from op 0 entries

unfoldable pub encode_value_body : List ℕ → List ℕ
encode_value_body value = push [] param_value value

pub record Response : Type 0 where
  pub tid : ℕ
  pub status : ℕ
  pub body : List ℕ

-- `map.get(param::VALUE).map(<[u8]>::to_vec).unwrap_or_default()`
abbrev pub value_or_empty : Tlv8Map → List ℕ
value_or_empty m = elim (Map.get m param_value) [ none ↦ [] | some v ↦ v ]

-- An empty body is an empty value.
unfoldable pub body_value : List ℕ → Result ThreadError (List ℕ)
body_value [] = ok []
body_value (b ∷ bs) = do m ← map_err tlv8 (Map.parse (b ∷ bs)); ok (value_or_empty m)

unfoldable pub value : Response → Result ThreadError (List ℕ)
unfolding body_value
value r = body_value r.body

-- One event record: its instance id, its value and the bytes behind it.
unfoldable pub decode_event : List ℕ → Result ThreadError ((ℕ × List ℕ) × List ℕ)
unfolding body_value
decode_event (c ∷ i0 ∷ i1 ∷ l0 ∷ l1 ∷ rest) = do
  let len = from_le_bytes (l0 ∷ l1 ∷ [])
  guard (leb len (length rest)) (malformed_pdu "event record body shorter than declared")
  v ← body_value (take len rest)
  ok ((from_le_bytes (i0 ∷ i1 ∷ []), v), drop len rest)
decode_event _ = err (malformed_pdu "event record shorter than its 5-byte header")

unfoldable pub events_loop : ℕ → List ℕ → List (ℕ × List ℕ) → Result ThreadError (List (ℕ × List ℕ))
events_loop fuel [] out = ok out
events_loop zero (b ∷ bs) out = stuck
events_loop (suc fuel) (b ∷ bs) out = do
  (event, rest) ← decode_event (b ∷ bs)
  events_loop fuel rest (out ++ event ∷ [])

-- Each round takes five bytes at least.
unfoldable pub decode_events : List ℕ → Result ThreadError (List (ℕ × List ℕ))
unfolding events_loop decode_event
decode_events payload = events_loop (length payload) payload []

-- The response, and the bytes behind it; `consumed` is the number of bytes before those. The sum of
-- the header's length and a `u16` does not overflow.
unfoldable pub decode_one : List ℕ → Result ThreadError (Response × List ℕ)
decode_one (control ∷ tid ∷ status ∷ l0 ∷ l1 ∷ rest) = do
  guard (bit_and control 14 == 2) (malformed_pdu "control byte does not have the response bit set")
  let len = from_le_bytes (l0 ∷ l1 ∷ [])
  guard (leb len (length rest)) (malformed_pdu "response body shorter than declared")
  ok (record { tid = tid; status = status; body = take len rest }, drop len rest)
decode_one _ = err (malformed_pdu "response shorter than its 5-byte header")

abbrev pub misplaced : ThreadError
misplaced = malformed_pdu "batched response transaction id does not match its position"

unfoldable pub decode_loop : ℕ → List ℕ → List Response → Result ThreadError (List Response)
decode_loop fuel [] out = ok out
decode_loop zero (b ∷ bs) out = stuck
decode_loop (suc fuel) (b ∷ bs) out = do
  (resp, rest) ← decode_one (b ∷ bs)
  guard (resp.tid == saturate_u8 (length out)) misplaced
  decode_loop fuel rest (out ++ resp ∷ [])

unfoldable pub decode_all : List ℕ → Result ThreadError (List Response)
unfolding decode_loop decode_one
decode_all pdu = decode_loop (length pdu) pdu []
