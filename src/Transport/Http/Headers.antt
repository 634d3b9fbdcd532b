-- ===== src/Transport/Http/Headers.antt =====
-- crates/hap-transport/src/http.rs: the start line and the headers.
pub mod Termination
use Prim.Native.String.{String}
use hap_rust.Common.{
  ℕ, zero, suc, ◌+◌, ◌-◌, ◌%◌, ◌^◌, List, [], ◌∷◌, ◌++◌, Option, none, some, Result, ok, err, stuck,
  ◌>>=◌, ◌>>◌, ok_or, guard, Bool, true, false, ◌&&◌, ◌||◌, not, length, take, drop, ltb, leb, ◌==◌,
  if◌then◌else◌, is_utf8,
}
use hap_rust.Crypto.PairVerify.{bytes_eq}
use hap_rust.Transport.Types.{TransportError, malformed_http, unsupported_encoding}
use hap_rust.Transport.Text.{from_utf8_lossy, trim, to_ascii_lowercase, from_str_radix, decimal}
use hap_rust.Transport.Http.Scan.{
  HapResponse, ParseOutcome, complete, incomplete, Failure, failed, panicked, event_prefix,
  http_prefix, crlf, starts_with, find_subslice, split, strip_cr, split_crlf, malformed, usize_max,
}

-- `content-type`, `content-length`, `transfer-encoding` and `chunked`.
abbrev pub content_type_name : List ℕ
content_type_name = 99 ∷ 111 ∷ 110 ∷ 116 ∷ 101 ∷ 110 ∷ 116 ∷ 45 ∷ 116 ∷ 121 ∷ 112 ∷ 101 ∷ []

abbrev pub content_length_name : List ℕ
content_length_name =
    99 ∷ 111 ∷ 110 ∷ 116 ∷ 101 ∷ 110 ∷ 116 ∷ 45 ∷ 108 ∷ 101 ∷ 110 ∷ 103 ∷ 116 ∷ 104 ∷ []

abbrev pub transfer_encoding_name : List ℕ
transfer_encoding_name =
    116 ∷ 114 ∷ 97 ∷ 110 ∷ 115 ∷ 102 ∷ 101 ∷ 114 ∷ 45 ∷ 101 ∷ 110 ∷ 99 ∷ 111 ∷ 100 ∷ 105 ∷ 110 ∷ 103
    ∷ []

abbrev pub chunked_value : List ℕ
chunked_value = 99 ∷ 104 ∷ 117 ∷ 110 ∷ 107 ∷ 101 ∷ 100 ∷ []

-- The headers that count, as read so far.
pub record Head : Type 0 where
  pub content_type : List ℕ
  pub content_length : Option ℕ
  pub chunked : Bool

-- The line before and behind its first colon.
unfoldable pub cut_colon : List ℕ → Option (List ℕ × List ℕ)
cut_colon [] = none
cut_colon (b ∷ bs) =
    let rest = cut_colon bs in
    if b == 58
    then some ([], bs)
    else elim rest [ none ↦ none | some (name, value) ↦ some (b ∷ name, value) ]

abbrev pub with_length : Head → Option ℕ → Result Failure Head
with_length head none = malformed "bad Content-Length"
with_length head (some n) = ok (record head { content_length = some n })

-- A header that counts twice counts as read last; a name that is none of the three is passed over.
unfoldable pub read_field : (name value : List ℕ) → Head → Result Failure Head
unfolding from_str_radix to_ascii_lowercase
read_field name value head =
    if bytes_eq name content_type_name
    then ok (record head { content_type = value })
    else if bytes_eq name content_length_name
    then with_length head (from_str_radix 10 usize_max value)
    else if bytes_eq name transfer_encoding_name
    then (if bytes_eq (to_ascii_lowercase value) chunked_value
        then ok (record head { chunked = true })
        else err (failed (unsupported_encoding value)))
    else ok head

unfoldable pub read_line : List ℕ → Head → Result Failure Head
unfolding cut_colon read_field from_utf8_lossy trim to_ascii_lowercase
read_line line head = elim (cut_colon line) [
  | none ↦ malformed "header without colon"
  | some (name, value) ↦
      read_field (to_ascii_lowercase (trim (from_utf8_lossy name))) (trim (from_utf8_lossy value))
        head
]

unfoldable pub read_lines : List (List ℕ) → Head → Result Failure Head
unfolding read_line
read_lines [] head = ok head
read_lines (line ∷ rest) head = do head' ← read_line line head; read_lines rest head'

abbrev pub code_part : List (List ℕ) → Result Failure (List ℕ)
code_part (proto ∷ code ∷ rest) = ok code
code_part (proto ∷ []) = malformed "missing status code"
code_part [] = malformed "missing status code"

unfoldable pub parse_status_code : (start_line : List ℕ) → Result Failure ℕ
unfolding split is_utf8 from_str_radix
parse_status_code start_line = do
  code ← code_part (split 32 start_line)
  guard (is_utf8 code) (failed (malformed_http "non-numeric status code"))
  ok_or (from_str_radix 10 0xFFFF code) (failed (malformed_http "non-numeric status code"))

unfoldable pub read_block : (prefix : List ℕ) → (lines : List (List ℕ)) → Result Failure (ℕ × Head)
unfolding starts_with parse_status_code read_lines
read_block prefix [] = malformed "empty start line"
read_block prefix (start_line ∷ lines) = do
  guard (starts_with prefix start_line) (failed (malformed_http "unexpected start line"))
  status ← parse_status_code start_line
  head ← read_lines lines (record { content_type = []; content_length = none; chunked = false })
  ok (status, head)

-- The block up to the empty line: the status and the headers. The text of the error does not repeat the
-- start line.
unfoldable pub parse_head : (prefix block : List ℕ) → Result Failure (ℕ × Head)
unfolding split_crlf read_block
parse_head prefix block = read_block prefix (split_crlf block)
