-- ===== src/Thread/Runs.antt =====
-- The theorems on the Thread codec at concrete inputs.
use hap_rust.Common.{ℕ, ◌≡◌, refl, List, [], ◌∷◌, ok, to_le_bytes, arith, from_le_bytes, chunks}
use hap_rust.Tlv8.Writer.{push}
use hap_rust.Thread.Types.{char_read}
use hap_rust.Thread.Pdu.{encode_request, encode_all, Response, decode_all, decode_events}
use hap_rust.Thread.Accessory.{decode_requests, value_body}
use hap_rust.Thread.Pdu.Batches.{
  Aligned, requests_from, encode_responses, decode_requests-encode_all, decode_all-encode_responses,
}
use hap_rust.Thread.Pdu.Inputs.{decode_all-Aligned}
use hap_rust.Thread.Pdu.Events.{event_records, decode_events-event_records}

encode_read : encode_request char_read 0x11 0x0203 [] ≡ 0 ∷ 3 ∷ 0x11 ∷ 3 ∷ 2 ∷ 0 ∷ 0 ∷ []
unfolding encode_request to_le_bytes
encode_read = refl

abbrev two_entries : List (ℕ × List ℕ)
two_entries = (0x0203, []) ∷ (9, 1 ∷ 1 ∷ 7 ∷ []) ∷ []

decode_requests-encode_all_example :
    decode_requests (encode_all char_read two_entries) ≡ ok (requests_from char_read 0 two_entries)
decode_requests-encode_all_example = decode_requests-encode_all char_read two_entries (omega arith)

abbrev first : Response
first = record { tid = 0; status = 0; body = 1 ∷ 1 ∷ 7 ∷ [] }

abbrev second : Response
second = record { tid = 1; status = 6; body = [] }

decode_all-encode_responses_example :
    decode_all (encode_responses (first ∷ second ∷ [])) ≡ ok (first ∷ second ∷ [])
decode_all-encode_responses_example =
    decode_all-encode_responses (first ∷ second ∷ []) (omega arith) (omega arith)

decode_first : decode_all (2 ∷ 0 ∷ 0 ∷ 3 ∷ 0 ∷ 1 ∷ 1 ∷ 7 ∷ []) ≡ ok (first ∷ [])
unfolding decode_all from_le_bytes
decode_first = refl

decode_all-Aligned_example : Aligned 0 (first ∷ [])
decode_all-Aligned_example =
    decode_all-Aligned (2 ∷ 0 ∷ 0 ∷ 3 ∷ 0 ∷ 1 ∷ 1 ∷ 7 ∷ []) (first ∷ []) decode_first

abbrev two_events : List (ℕ × List ℕ)
two_events = (9, 1 ∷ []) ∷ (0x0102, []) ∷ []

decode_events-event_records_run : decode_events (event_records two_events) ≡ ok two_events
unfolding value_body push chunks
decode_events-event_records_run = decode_events-event_records two_events (omega arith)
