-- ===== src/Transport/Http/Chunked.antt =====
-- crates/hap-transport/src/http.rs: `decode_chunked`.
pub mod Stable
pub mod Termination
pub mod Overflow
use Prim.Native.String.{String}
use hap_rust.Common.{
  ℕ, zero, suc, ◌+◌, ◌-◌, ◌%◌, ◌^◌, List, [], ◌∷◌, ◌++◌, Option, none, some, Result, ok, err, stuck,
  ◌>>=◌, ◌>>◌, ok_or, guard, Bool, true, false, ◌&&◌, ◌||◌, not, length, take, drop, ltb, leb, ◌==◌,
  if◌then◌else◌, is_utf8,
}
use hap_rust.Crypto.PairVerify.{bytes_eq}
use hap_rust.Transport.Types.{TransportError, malformed_http, unsupported_encoding}
use hap_rust.Transport.Text.{from_utf8_lossy, trim, to_ascii_lowercase, from_str_radix, decimal}
use hap_rust.Transport.Http.Scan.{
  HapResponse, ParseOutcome, complete, incomplete, Failure, failed, panicked, event_prefix,
  http_prefix, crlf, starts_with, find_subslice, split, strip_cr, split_crlf, malformed, usize_max,
}

unfoldable pub chunk_size : List ℕ → Result Failure ℕ
unfolding is_utf8 trim from_str_radix
chunk_size line = do
  guard (is_utf8 line) (failed (malformed_http "bad chunk size"))
  ok_or (from_str_radix 16 usize_max (trim line)) (failed (malformed_http "bad chunk size"))

-- What stands at the front of a chunked body: too few bytes, the last chunk up to its end, or a chunk
-- with its end and its bytes.
pub data Chunk : Type 0 where
  more : Chunk
  last : (end : ℕ) → Chunk
  piece : (end : ℕ) → (bytes : List ℕ) → Chunk

-- A chunk of `size` bytes behind `after_size`. The sums wrap, and a slice with its end before its
-- beginning panics.
unfoldable pub take_chunk : (after_size size : ℕ) → List ℕ → Result Failure Chunk
take_chunk after_size size rest =
    let chunk_end = (after_size + size + 2) % 2 ^ 64 in
    let data_end = (after_size + size) % 2 ^ 64 in
    if ltb (length rest) chunk_end
    then ok more
    else if ltb data_end after_size || ltb (length rest) data_end
    then err panicked
    else ok (piece chunk_end (take size (drop after_size rest)))

unfoldable pub last_chunk : (after_size : ℕ) → List ℕ → Result Failure Chunk
last_chunk after_size rest =
    if ltb (length rest) (after_size + 2) then ok more else ok (last (after_size + 2))

unfoldable pub sized_chunk : (nl : ℕ) → List ℕ → Result Failure Chunk
unfolding chunk_size take_chunk last_chunk
sized_chunk nl rest = do
  size ← chunk_size (take nl rest)
  if size == 0 then last_chunk (nl + 2) rest else take_chunk (nl + 2) size rest

-- One round of `decode_chunked`.
unfoldable pub next_chunk : List ℕ → Result Failure Chunk
unfolding find_subslice sized_chunk
next_chunk rest = elim (find_subslice crlf rest) [ none ↦ ok more | some nl ↦ sized_chunk nl rest ]

unfoldable pub chunks_loop :
    (fuel : ℕ) → (rest body : List ℕ) → (consumed : ℕ) → Result Failure (Option (List ℕ × ℕ))
unfolding next_chunk
chunks_loop zero rest body consumed = stuck
chunks_loop (suc fuel) rest body consumed = elim (next_chunk rest) [
  | ok more ↦ ok none
  | ok (last end) ↦ ok (some (body, consumed + end))
  | ok (piece end bytes) ↦ chunks_loop fuel (drop end rest) (body ++ bytes) (consumed + end)
  | err e ↦ err e
  | stuck ↦ stuck
]

-- A round takes a byte at least.
unfoldable pub decode_chunked : List ℕ → Result Failure (Option (List ℕ × ℕ))
unfolding chunks_loop
decode_chunked rest = chunks_loop (suc (length rest)) rest [] 0
