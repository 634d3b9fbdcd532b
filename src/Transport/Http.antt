-- ===== src/Transport/Http.antt =====
-- crates/hap-transport/src/http.rs: requests, and the parser of responses and events; and
-- `demux_messages` of crates/hap-transport/src/session.rs.
pub mod Scan
pub mod Headers
pub mod Chunked
pub mod Stable
pub mod Demux
mod Runs
pub mod Termination
use Prim.Native.String.{String}
use hap_rust.Common.{
  ℕ, zero, suc, ◌+◌, ◌-◌, ◌%◌, ◌^◌, List, [], ◌∷◌, ◌++◌, Option, none, some, Result, ok, err, stuck,
  ◌>>=◌, ◌>>◌, ok_or, guard, Bool, true, false, ◌&&◌, ◌||◌, not, length, take, drop, ltb, leb, ◌==◌,
  if◌then◌else◌, is_utf8,
}
use hap_rust.Crypto.PairVerify.{bytes_eq}
use hap_rust.Transport.Types.{TransportError, malformed_http, unsupported_encoding}
use hap_rust.Transport.Text.{from_utf8_lossy, trim, to_ascii_lowercase, from_str_radix, decimal}
use hap_rust.Transport.Http.Scan.{
  HapResponse, ParseOutcome, complete, incomplete, Failure, failed, panicked, event_prefix,
  http_prefix, crlf, starts_with, find_subslice, split, strip_cr, split_crlf, malformed, usize_max,
}
use hap_rust.Transport.Http.Headers.{Head, parse_head}
use hap_rust.Transport.Http.Chunked.{decode_chunked}

abbrev or_zero : Option ℕ → ℕ
or_zero none = 0
or_zero (some n) = n

-- The body that the headers announce, and its length on the wire.
unfoldable pub parse_body : Head → List ℕ → Result Failure (Option (List ℕ × ℕ))
unfolding decode_chunked
parse_body head rest =
    if head.chunked
    then decode_chunked rest
    else (let len = or_zero head.content_length in
        if ltb (length rest) len then ok none else ok (some (take len rest, len)))

unfoldable pub outcome_of :
    (status : ℕ) → Head → (body_start : ℕ) → Option (List ℕ × ℕ) → ParseOutcome
outcome_of status head body_start none = incomplete
outcome_of status head body_start (some (body, len)) =
    complete (record { status = status; content_type = head.content_type; body = body })
      (body_start + len)

-- From the empty line on, at `headers_end`.
unfoldable pub parse_at : (prefix buf : List ℕ) → (headers_end : ℕ) → Result Failure ParseOutcome
unfolding parse_head parse_body outcome_of
parse_at prefix buf headers_end = do
  (status, head) ← parse_head prefix (take headers_end buf)
  found ← parse_body head (drop (headers_end + 4) buf)
  ok (outcome_of status head (headers_end + 4) found)

unfoldable pub parse_message : (buf prefix : List ℕ) → Result Failure ParseOutcome
unfolding find_subslice parse_at
parse_message buf prefix = elim (find_subslice (13 ∷ 10 ∷ 13 ∷ 10 ∷ []) buf) [
  | none ↦ ok incomplete
  | some headers_end ↦ parse_at prefix buf headers_end
]

unfoldable pub parse_response : List ℕ → Result Failure ParseOutcome
unfolding parse_message
parse_response buf = parse_message buf http_prefix

-- A request; its length in decimal digits.
unfoldable pub encode_request : (method path content_type body : List ℕ) → List ℕ
unfolding decimal
encode_request method path content_type body =
    (method
      ++ (32 ∷ [])
      ++ path
      ++ (32 ∷ 72 ∷ 84 ∷ 84 ∷ 80 ∷ 47 ∷ 49 ∷ 46 ∷ 49 ∷ [])
      ++ crlf
      ++ (67 ∷ 111 ∷ 110 ∷ 116 ∷ 101 ∷ 110 ∷ 116 ∷ 45 ∷ 84 ∷ 121 ∷ 112 ∷ 101 ∷ 58 ∷ 32 ∷ [])
      ++ content_type
      ++ crlf
      ++ (67 ∷ 111 ∷ 110 ∷ 116 ∷ 101 ∷ 110 ∷ 116 ∷ 45 ∷ 76 ∷ 101 ∷ 110 ∷ 103 ∷ 116 ∷ 104 ∷ 58 ∷ 32
          ∷ [])
      ++ decimal (length body)
      ++ crlf
      ++ crlf)
    ++ body

-- crates/hap-transport/src/session.rs: `EventNotification` and `Demuxed`.
pub data Demuxed : Type 0 where
  response : HapResponse → Demuxed
  event : (body : List ℕ) → Demuxed

abbrev pub demuxed : (is_event : Bool) → HapResponse → Demuxed
demuxed true r = event r.body
demuxed false r = response r

-- What stands at the front of the plaintext: nothing that is complete, or a message of so many bytes.
pub data Front : Type 0 where
  waiting : Front
  message : Demuxed → (consumed : ℕ) → Front

abbrev pub front_of : (is_event : Bool) → ParseOutcome → Front
front_of is_event incomplete = waiting
front_of is_event (complete r n) = message (demuxed is_event r) n

abbrev pub front_message : (is_event : Bool) → Result Failure ParseOutcome → Result Failure Front
front_message is_event r = do o ← r; ok (front_of is_event o)

-- One round of `demux_messages` on what is left. Nine bytes are the longer prefix.
unfoldable pub demux_front : List ℕ → Result Failure Front
unfolding starts_with parse_message
demux_front [] = ok waiting
demux_front (b ∷ bs) =
    if starts_with event_prefix (b ∷ bs)
    then front_message true (parse_message (b ∷ bs) event_prefix)
    else if starts_with http_prefix (b ∷ bs)
    then front_message false (parse_message (b ∷ bs) http_prefix)
    else if ltb (length (b ∷ bs)) 9
    then ok waiting
    else malformed "unrecognised start line in secure stream"

unfoldable pub demux_loop :
    (fuel : ℕ)
    → (rest : List ℕ) → (out : List Demuxed) → (offset : ℕ) → Result Failure (List Demuxed × ℕ)
unfolding demux_front
demux_loop zero rest out offset = stuck
demux_loop (suc fuel) rest out offset = elim (demux_front rest) [
  | ok waiting ↦ ok (out, offset)
  | ok (message m n) ↦ demux_loop fuel (drop n rest) (out ++ m ∷ []) (offset + n)
  | err e ↦ err e
  | stuck ↦ stuck
]

-- A message takes a byte at least.
unfoldable pub demux_messages : List ℕ → Result Failure (List Demuxed × ℕ)
unfolding demux_loop
demux_messages buf = demux_loop (suc (length buf)) buf [] 0
