-- ===== src/Thread/Pdu/Events.antt =====
-- Values in bodies, and the event records that the accessory pushes.
use hap_rust.Common.{
  ℕ, zero, suc, ◌+◌, ◌^◌, ◌≤◌, ◌<◌, ◌≡◌, ◌≢◌, refl, sym, ap, ◌∙◌, List, [], ◌∷◌, ◌++◌, append_assoc,
  append-nil, ok, length, length-append, take-append, drop-append, All, to_le_bytes,
  from_le_bytes-to_le_bytes, le→leb, arith,
}
use hap_rust.Tlv8.Reader
use hap_rust.Tlv8.Writer.{push}
use hap_rust.Tlv8.Map
use hap_rust.Tlv8.RoundTrip.{push_all, parse-push_all}
use hap_rust.Thread.Pdu.{
  param_value, encode_value_body, body_value, decode_event, events_loop, decode_events,
}
use hap_rust.Thread.Accessory.{value_body, event_record}

parse-push : (ty : ℕ) (v : List ℕ) → ty ≢ 255 → Reader.parse (push [] ty v) ≡ ok ((ty, v) ∷ [])
parse-push ty v h = unfold push_all in parse-push_all ((ty, v) ∷ []) ((λ e. absurd (h e)), tt)

body_value-parse :
    (bytes : List ℕ) (v : List ℕ)
    → Reader.parse bytes ≡ ok ((param_value, v) ∷ [])
    → body_value bytes ≡ ok v
unfolding body_value Map.parse Map.get
body_value-parse [] v e = unfold Reader.parse in cc
body_value-parse (b ∷ bs) v e = rw e refl

-- A value of any length that either side puts into a body is read back, an empty one as well.
pub body_value-value_body :
    (v : List ℕ) → (body_value (value_body v) ≡ ok v) × (body_value (encode_value_body v) ≡ ok v)
unfolding value_body encode_value_body
body_value-value_body v =
    let e = body_value-parse (push [] param_value v) v (parse-push param_value v (omega arith)) in
    (e, e)

-- The plaintext of several events, as the accessory makes it.
abbrev pub event_records : List (ℕ × List ℕ) → List ℕ
event_records [] = []
event_records ((iid, v) ∷ es) = event_record iid v ++ event_records es

abbrev pub IsEvent : ℕ × List ℕ → Type 0
IsEvent (iid, v) = (iid < 2 ^ 16) × (length (value_body v) < 2 ^ 16)

decode_event-event_record :
    (iid : ℕ) (v rest : List ℕ)
    → iid < 2 ^ 16
    → length (value_body v) < 2 ^ 16
    → decode_event (event_record iid v ++ rest) ≡ ok ((iid, v), rest)
unfolding decode_event event_record to_le_bytes
decode_event-event_record iid v rest small fits =
    rw
      (
        from_le_bytes-to_le_bytes 2 (length (value_body v)) fits,
        from_le_bytes-to_le_bytes 2 iid small,
        le→leb (length (value_body v)) (length (value_body v ++ rest))
            (omega (arith, length-append (value_body v) rest)),
        take-append (length (value_body v)) (value_body v) rest refl,
        drop-append (length (value_body v)) (value_body v) rest refl,
        (body_value-value_body v).0,
      )
      refl

length-event_record :
    (iid : ℕ) (v : List ℕ) → length (event_record iid v) ≡ 5 + length (value_body v)
unfolding event_record to_le_bytes
length-event_record iid v = omega arith

events_loop_step :
    (fuel : ℕ) (bytes rest : List ℕ) (out : List (ℕ × List ℕ)) (event : ℕ × List ℕ)
    → decode_event bytes ≡ ok (event, rest)
    → events_loop (suc fuel) bytes out ≡ events_loop fuel rest (out ++ event ∷ [])
unfolding events_loop
events_loop_step fuel [] rest out event e = unfold decode_event in cc
events_loop_step fuel (b ∷ bs) rest out event e = rw e refl

events_loop-event_records :
    (es : List (ℕ × List ℕ)) (fuel : ℕ) (out : List (ℕ × List ℕ))
    → All IsEvent es
    → length (event_records es) ≤ fuel
    → events_loop fuel (event_records es) out ≡ ok (out ++ es)
events_loop-event_records [] fuel out h p = unfold events_loop in ap ok (sym (append-nil out))
events_loop-event_records ((iid, v) ∷ es) zero out h p = absurd (
    omega (arith, length-append (event_record iid v) (event_records es), length-event_record iid v))
events_loop-event_records ((iid, v) ∷ es) (suc fuel) out h p =
    events_loop_step fuel _ (event_records es) out (iid, v)
      (decode_event-event_record iid v (event_records es) h.0.0 h.0.1)
    ∙ events_loop-event_records es fuel _ h.1 (
        omega
          (arith, length-append (event_record iid v) (event_records es), length-event_record iid v))
    ∙ ap ok (append_assoc out ((iid, v) ∷ []) es)

-- The controller decodes the accessory's event records into their instance ids and values, in order,
-- where the instance ids and the lengths of the bodies fit 16 bits.
pub decode_events-event_records :
    (es : List (ℕ × List ℕ)) → All IsEvent es → decode_events (event_records es) ≡ ok es
unfolding decode_events
decode_events-event_records es h = events_loop-event_records es _ [] h (omega arith)
