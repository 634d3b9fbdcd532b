-- ===== src/Ble/Pdu.antt =====
-- crates/hap-ble/src/pdu.rs: PDUs, their fragments, and a request with its response. The GATT link
-- is a parameter: what a write and a read do to it. A `while` loop that pushes fragments until the
-- limit of 64 needs 65 rounds at most.
pub mod Fragments
pub mod Exchange
pub mod Termination
use Prim.Native.String.{String}
use hap_rust.Common.{
  ℕ, zero, suc, ◌+◌, ◌-◌, List, [], ◌∷◌, ◌++◌, Option, none, some, Result, ok, err, stuck, guard,
  map_err, ◌>>=◌, ◌>>◌, ok_or, length, take, drop, get_or, chunks, map, to_le_bytes, from_le_bytes,
  ltb, leb, if◌then◌else◌, min, max,
}
use hap_rust.Tlv8.Writer.{push, push_u8}
use hap_rust.Tlv8.Map
use hap_rust.Crypto.Aead.{Chacha}
use hap_rust.Ble.Types.{BleError, tlv8, malformed_pdu, OpCode, op_byte}
use hap_rust.Ble.Session.{BleSession, seal, open_pdu}

abbrev pub param_value : ℕ
param_value = 0x01

abbrev pub param_return_response : ℕ
param_return_response = 0x09

abbrev saturate_u16 : ℕ → ℕ
saturate_u16 n = min n 0xFFFF

-- An empty body has no length field.
abbrev body_part : List ℕ → List ℕ
body_part [] = []
body_part (b ∷ bs) = to_le_bytes 2 (saturate_u16 (length (b ∷ bs))) ++ b ∷ bs

unfoldable pub encode_request : OpCode → ℕ → ℕ → List ℕ → List ℕ
encode_request op tid iid body = 0x00 ∷ op_byte op ∷ tid ∷ (to_le_bytes 2 iid ++ body_part body)

unfoldable pub encode_write_body : List ℕ → List ℕ
encode_write_body value = push (push_u8 [] param_return_response 1) param_value value

unfoldable pub value_param : List ℕ → Result BleError (List ℕ)
value_param body = do
  m ← map_err tlv8 (Map.parse body)
  ok_or (Map.get m param_value) (malformed_pdu "missing value param (0x01)")

pub record Response : Type 0 where
  pub tid : ℕ
  pub status : ℕ
  pub body : List ℕ

unfoldable pub decode_response : List ℕ → Result BleError Response
decode_response (control ∷ tid ∷ status ∷ []) =
    ok (record { tid = tid; status = status; body = [] })
decode_response (control ∷ tid ∷ status ∷ l0 ∷ []) =
    err (malformed_pdu "response body length truncated")
decode_response (control ∷ tid ∷ status ∷ l0 ∷ l1 ∷ rest) = do
  let len = from_le_bytes (l0 ∷ l1 ∷ [])
  guard (leb len (length rest)) (malformed_pdu "response body shorter than declared")
  ok (record { tid = tid; status = status; body = take len rest })
decode_response _ = err (malformed_pdu "response shorter than 3 bytes")

-- The loop over `rest`: it takes `take` elements a round, which is what `chunks` does.
unfoldable pub continuations : ℕ → ℕ → List ℕ → List (List ℕ)
continuations tid cont_payload rest = map (λ c. 0x80 ∷ tid ∷ c) (chunks cont_payload rest)

unfoldable pub fragment : List ℕ → ℕ → List (List ℕ)
unfolding continuations
fragment pdu frag_size =
    let size = max frag_size 3 in
    if leb (length pdu) size
    then pdu ∷ []
    else take size pdu ∷ continuations (get_or pdu 2 0) (max (size - 2) 1) (drop size pdu)

-- The loop over `frags[1..]`.
unfoldable pub join : List ℕ → List (List ℕ) → Result BleError (List ℕ)
join out [] = ok out
join out ((a ∷ b ∷ f) ∷ fs) = join (out ++ f) fs
join out (f ∷ fs) = err (malformed_pdu "continuation fragment too short")

unfoldable pub reassemble : List (List ℕ) → Result BleError (List ℕ)
unfolding join
reassemble [] = err (malformed_pdu "no fragments to reassemble")
reassemble (f ∷ fs) = join f fs

unfoldable pub declared_total : List ℕ → ℕ
declared_total (c ∷ t ∷ s ∷ l0 ∷ l1 ∷ rest) = 5 + from_le_bytes (l0 ∷ l1 ∷ [])
declared_total first = length first

abbrev pub max_response_fragments : ℕ
max_response_fragments = 64

-- What a link of state `S` does with a fragment that is written to a characteristic, and what a
-- read of it delivers.
pub record GattConnection (S : Type 0) : Type 0 where
  pub write : String → List ℕ → S → Result BleError (Unit {0}) × S
  pub read : String → S → Result BleError (List ℕ) × S

module _ {S : Type 0} (put : List ℕ → S → Result BleError (Unit {0}) × S) where
  -- The loop that writes fragments; `?` leaves it at the first error.
  unfoldable pub write_all : List (List ℕ) → S → Result BleError (Unit {0}) × S
  write_all [] s = (ok tt, s)
  write_all (f ∷ fs) s =
      let (r, s') = put f s in
      elim r [ ok done ↦ write_all fs s' | err e ↦ (err e, s') | stuck ↦ (stuck, s') ]

module _ {S : Type 0} (next : S → Result BleError (List ℕ) × S) where
  -- The loop that reads: `frags` are the fragments so far, in order.
  unfoldable pub collect : ℕ → List (List ℕ) → S → Result BleError (List (List ℕ)) × S
  collect zero frags s = (stuck, s)
  collect (suc fuel) frags s =
      let (r, s') = next s in
      elim (reassemble frags) [
        | err e ↦ (err e, s)
        | stuck ↦ (stuck, s)
        | ok pdu ↦
            if leb (declared_total (get_or frags 0 [])) (length pdu)
            then (ok frags, s)
            else if leb max_response_fragments (length frags)
            then (err (malformed_pdu "too many response fragments"), s)
            else elim r [
              | ok f ↦ collect fuel (frags ++ f ∷ []) s'
              | err e ↦ (err e, s')
              | stuck ↦ (stuck, s')
            ]
      ]

  unfoldable pub decode_all_read :
      Result BleError (List (List ℕ)) × S → Result BleError Response × S
  decode_all_read (frags, s) = (frags >>= λ fs. reassemble fs >>= decode_response, s)

  unfoldable pub receive_after : Result BleError (List ℕ) × S → Result BleError Response × S
  unfolding collect decode_all_read
  receive_after (ok first, s) =
      decode_all_read (collect (suc max_response_fragments) (first ∷ []) s)
  receive_after (err e, s) = (err e, s)
  receive_after (stuck, s) = (stuck, s)

  -- The first read, the loop, and the decoding of what it read.
  unfoldable pub receive : S → Result BleError Response × S
  unfolding receive_after
  receive s = receive_after (next s)

module _ {S : Type 0} (gatt : GattConnection S) (char_uuid : String) where
  unfoldable pub request : OpCode → (tid iid : ℕ) → List ℕ → ℕ → S → Result BleError Response × S
  unfolding encode_request fragment write_all receive
  request op tid iid body frag_size s =
      let (written, s') =
        write_all (gatt.write char_uuid) (fragment (encode_request op tid iid body) frag_size) s in
      elim written [
        | ok done ↦ receive (gatt.read char_uuid) s'
        | err e ↦ (err e, s')
        | stuck ↦ (stuck, s')
      ]

  module _ (c : Chacha) where
    -- A fragment is sealed, then written.
    unfoldable pub write_sealed :
        List ℕ → BleSession × S → Result BleError (Unit {0}) × (BleSession × S)
    unfolding seal
    write_sealed frag (session, s) =
        let (sealed, session') = seal c session frag in
        elim sealed [
          | ok bytes ↦ let (r, s') = gatt.write char_uuid bytes s in (r, (session', s'))
          | err e ↦ (err e, (session', s))
          | stuck ↦ (stuck, (session', s))
        ]

    -- What is read is opened.
    unfoldable pub read_opened : BleSession × S → Result BleError (List ℕ) × (BleSession × S)
    unfolding open_pdu
    read_opened (session, s) =
        let (r, s') = gatt.read char_uuid s in
        elim r [
          | ok bytes ↦ let (opened, session') = open_pdu c session bytes in (opened, (session', s'))
          | err e ↦ (err e, (session, s'))
          | stuck ↦ (stuck, (session, s'))
        ]

    unfoldable pub request_secure :
        OpCode
        → (tid iid : ℕ) → List ℕ
        → ℕ
        → BleSession × S
        → Result BleError Response × (BleSession × S)
    unfolding encode_request fragment write_all receive write_sealed read_opened
    request_secure op tid iid body frag_size s =
        let (written, s') =
          write_all write_sealed
            (fragment (encode_request op tid iid body) (max (frag_size - 16) 1)) s in
        elim written [
          | ok done ↦ receive read_opened s'
          | err e ↦ (err e, s')
          | stuck ↦ (stuck, s')
        ]
