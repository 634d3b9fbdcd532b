-- ===== src/Transport/Http/Runs.antt =====
-- Concrete messages of the encrypted stream.
use hap_rust.Common.{
  ℕ, ◌-◌, ◌^◌, ◌≡◌, ◌≢◌, refl, List, [], ◌∷◌, ◌++◌, ok, err, stuck, drop, arith, is_utf8,
}
use hap_rust.Transport.Text.{from_utf8_lossy, trim, to_ascii_lowercase, from_str_radix}
use hap_rust.Transport.Http.Scan.{
  HapResponse, panicked, find_subslice, split_crlf, split, starts_with,
}
use hap_rust.Transport.Http.Headers.{parse_status_code, read_lines, cut_colon}
use hap_rust.Transport.Http.Chunked.{decode_chunked, chunk_size}
use hap_rust.Transport.Http.Chunked.Overflow.{decode_chunked_panics}
use hap_rust.Transport.Http.{response, event, demux_messages, parse_message}
use hap_rust.Transport.Http.Demux.{prepend, demux_messages-append}
use hap_rust.Transport.Http.Termination.{demux_messages-ne-stuck}

-- A response of two bytes, and an event in chunks.
abbrev first_message : List ℕ
first_message =
    72 ∷ 84 ∷ 84 ∷ 80 ∷ 47 ∷ 49 ∷ 46 ∷ 49 ∷ 32 ∷ 50 ∷ 48 ∷ 48 ∷ 32 ∷ 79 ∷ 75 ∷ 13 ∷ 10 ∷ 67 ∷ 111
    ∷ 110 ∷ 116 ∷ 101 ∷ 110 ∷ 116 ∷ 45 ∷ 76 ∷ 101 ∷ 110 ∷ 103 ∷ 116 ∷ 104 ∷ 58 ∷ 32 ∷ 50 ∷ 13 ∷ 10
    ∷ 13 ∷ 10 ∷ 104 ∷ 105 ∷ []

abbrev second_message : List ℕ
second_message =
    69 ∷ 86 ∷ 69 ∷ 78 ∷ 84 ∷ 47 ∷ 49 ∷ 46 ∷ 48 ∷ 32 ∷ 50 ∷ 48 ∷ 48 ∷ 32 ∷ 79 ∷ 75 ∷ 13 ∷ 10 ∷ 116
    ∷ 114 ∷ 97 ∷ 110 ∷ 115 ∷ 102 ∷ 101 ∷ 114 ∷ 45 ∷ 101 ∷ 110 ∷ 99 ∷ 111 ∷ 100 ∷ 105 ∷ 110 ∷ 103
    ∷ 58 ∷ 32 ∷ 67 ∷ 104 ∷ 117 ∷ 110 ∷ 107 ∷ 101 ∷ 100 ∷ 13 ∷ 10 ∷ 13 ∷ 10 ∷ 50 ∷ 13 ∷ 10 ∷ 111
    ∷ 107 ∷ 13 ∷ 10 ∷ 48 ∷ 13 ∷ 10 ∷ 13 ∷ 10 ∷ []

abbrev hi_response : HapResponse
hi_response = record { status = 200; content_type = []; body = 104 ∷ 105 ∷ [] }

abbrev partly : List ℕ
partly = first_message ++ 69 ∷ 86 ∷ 69 ∷ []

first_run : demux_messages partly ≡ ok (response hi_response ∷ [], 40)
unfolding demux_messages parse_message find_subslice split_crlf split starts_with parse_status_code
    read_lines cut_colon from_utf8_lossy trim to_ascii_lowercase from_str_radix is_utf8
    decode_chunked
first_run = refl

event_run : demux_messages second_message ≡ ok (event (111 ∷ 107 ∷ []) ∷ [], 60)
unfolding demux_messages parse_message find_subslice split_crlf split starts_with parse_status_code
    read_lines cut_colon from_utf8_lossy trim to_ascii_lowercase from_str_radix is_utf8
    decode_chunked
event_run = refl

demux_messages-append_example :
    demux_messages (partly ++ drop 3 second_message)
    ≡ prepend
        (response hi_response ∷ [])
        40
        (demux_messages (drop 40 partly ++ drop 3 second_message))
demux_messages-append_example =
    demux_messages-append partly (drop 3 second_message) (response hi_response ∷ []) 40
      (omega arith) first_run

demux_messages-ne-stuck_example : demux_messages second_message ≢ stuck
demux_messages-ne-stuck_example = demux_messages-ne-stuck second_message (omega arith)

-- `ffffffffffffffff`, the end of the line, and one byte.
abbrev huge : List ℕ
huge =
    102 ∷ 102 ∷ 102 ∷ 102 ∷ 102 ∷ 102 ∷ 102 ∷ 102 ∷ 102 ∷ 102 ∷ 102 ∷ 102 ∷ 102 ∷ 102 ∷ 102 ∷ 102
    ∷ 13 ∷ 10 ∷ 120 ∷ []

decode_chunked_panics_example : decode_chunked huge ≡ err panicked
unfolding find_subslice starts_with chunk_size is_utf8 trim from_str_radix
decode_chunked_panics_example =
    decode_chunked_panics huge 16 (2 ^ 64 - 1) refl refl (omega arith) (omega arith) (omega arith)
      (omega arith)
