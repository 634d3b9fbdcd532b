-- ===== src/Thread/Accessory.antt =====
-- crates/hap-thread-dut/src/pdu.rs: the codec of the software accessory, which decodes what the
-- controller encodes and the other way round.
use Prim.Native.String.{String}
use hap_rust.Common.{
  ℕ, zero, suc, List, [], ◌∷◌, ◌++◌, Result, ok, err, stuck, ◌>>=◌, ◌>>◌, guard, length, take, drop,
  to_le_bytes, from_le_bytes, leb, min,
}
use hap_rust.Tlv8.Types.{Tlv8Error}
use hap_rust.Tlv8.Writer.{push}
use hap_rust.Crypto.Types.{CryptoError}

-- crates/hap-thread-dut/src/error.rs. An `io::Error` is opaque.
pub data DutError : Type 0 where
  io : DutError
  crypto : CryptoError → DutError
  tlv8 : Tlv8Error → DutError
  protocol : String → DutError

pub record Request : Type 0 where
  pub opcode : ℕ
  pub tid : ℕ
  pub iid : ℕ
  pub body : List ℕ

unfoldable pub decode_request : List ℕ → Result DutError (Request × List ℕ)
decode_request (control ∷ opcode ∷ tid ∷ i0 ∷ i1 ∷ l0 ∷ l1 ∷ rest) = do
  let len = from_le_bytes (l0 ∷ l1 ∷ [])
  guard (leb len (length rest)) (protocol "request body shorter than declared")
  ok (
    record { opcode = opcode; tid = tid; iid = from_le_bytes (i0 ∷ i1 ∷ []); body = take len rest },
    drop len rest,
  )
decode_request _ = err (protocol "request PDU shorter than its 7-byte header")

unfoldable pub requests_loop : ℕ → List ℕ → List Request → Result DutError (List Request)
requests_loop fuel [] out = ok out
requests_loop zero (b ∷ bs) out = stuck
requests_loop (suc fuel) (b ∷ bs) out = do
  (request, rest) ← decode_request (b ∷ bs)
  requests_loop fuel rest (out ++ request ∷ [])

-- Each round takes seven bytes at least.
unfoldable pub decode_requests : List ℕ → Result DutError (List Request)
unfolding requests_loop decode_request
decode_requests pdu = requests_loop (length pdu) pdu []

unfoldable pub encode_response : ℕ → ℕ → List ℕ → List ℕ
encode_response tid status body =
    0x02 ∷ tid ∷ status ∷ (to_le_bytes 2 (min (length body) 0xFFFF) ++ body)

unfoldable pub value_body : List ℕ → List ℕ
value_body value = push [] 0x01 value

-- The plaintext record that `push_event` of crates/hap-thread-dut/src/lib.rs builds, once the length
-- of the body has passed `u16::try_from`.
unfoldable pub event_record : ℕ → List ℕ → List ℕ
event_record iid value =
    let body = value_body value in 0 ∷ (to_le_bytes 2 iid ++ (to_le_bytes 2 (length body) ++ body))
