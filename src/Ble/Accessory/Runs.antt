-- ===== src/Ble/Accessory/Runs.antt =====
-- Concrete runs of the watch over advertisements, with a stream cipher that changes nothing.
use hap_rust.Common.{
  ℕ, ◌≡◌, refl, sym, ap, ◌∙◌, ◌↔◌, List, [], ◌∷◌, ◌++◌, none, some, ok, true, length, take,
  take-append, length-append, replicate, from_le_bytes, to_le_bytes, arith,
}
use hap_rust.Model.Format.{bool, bool_value}
use hap_rust.Crypto.Broadcast.{
  StreamCrates, StreamLaws, BroadcastKey, from_bytes, open_text, seal, partial_tag,
}
use hap_rust.Crypto.Broadcast.Exact.{seal-open_text, open_text_iff}
use hap_rust.Ble.Advert.{parse}
use hap_rust.Ble.Values.{Floats, encode_value, decode_value}
use hap_rust.Ble.Values.RoundTrip.{decode_value-encode_value}
use hap_rust.Ble.Accessory.{KnownChar, gsn_is_newer, dedup_should_emit}
use hap_rust.Ble.Accessory.Watch.{
  Watch, own_gsn, on_regular, on_parsed, on_advert, on_read, emit_result, emit, System, advert,
  wake, read,
}
use hap_rust.Ble.Accessory.Watch.Delivery.{
  notification, sealed, advertised, FitsOnly, on_advert-advertised,
}
use hap_rust.Ble.Accessory.Watch.Replay.{FitsOnce, on_advert_again}
use hap_rust.Ble.Accessory.Watch.Invariant.{Distinct}
use hap_rust.Ble.Accessory.Watch.Once.{begin, begins, steps, sent_once}

abbrev plain_stream : StreamCrates
plain_stream = record { apply_keystream = λ k n p m. m; poly1305 = λ k m. replicate 16 0 }

plain_stream-laws : StreamLaws plain_stream
plain_stream-laws = record { involutive = λ k n p m. refl; tag_len = λ k m. refl }

abbrev whole : Floats
whole = record { F = ℕ; narrow_bits = λ f. f; widen_bits = λ b. b }

abbrev key : BroadcastKey
key = from_bytes (replicate 32 1)

abbrev device : List ℕ
device = 1 ∷ 2 ∷ 3 ∷ 4 ∷ 5 ∷ 6 ∷ []

same_front : (a b t : List ℕ) → a ++ t ≡ b ++ t → a ≡ b
same_front a b t e =
    let len : length a ≡ length b =
      omega (arith, ap length e, length-append a t, length-append b t) in
    sym (take-append (length a) a t refl) ∙ ap (take (length a)) e ∙ take-append (length a) b t len

one_text :
    (payload : List ℕ) (g h : ℕ) (pt qt : List ℕ)
    → open_text plain_stream key g payload device ≡ ok pt
    → open_text plain_stream key h payload device ≡ ok qt
    → pt ≡ qt
unfolding seal partial_tag
one_text payload g h pt qt p q = same_front pt qt (replicate 4 0) (
    seal-open_text plain_stream plain_stream-laws key g device payload p
    ∙ sym (seal-open_text plain_stream plain_stream-laws key h device payload q))

plain_stream-FitsOnce : (mfg : List ℕ) → FitsOnce whole plain_stream key (λ i. some bool) device mfg
plain_stream-FitsOnce mfg payload g h pt qt parsed p q =
    sym p.2 ∙ ap own_gsn (one_text payload g h pt qt p.0 q.0) ∙ q.2

abbrev before : Watch ℕ
before = record { last_gsn = 0xFFFF; emitted = (11, 9) ∷ []; poll_mark = none; sent = [] }

open_text_iff_example :
    (open_text plain_stream key 7 (1 ∷ 2 ∷ 0 ∷ 0 ∷ 0 ∷ 0 ∷ []) device ≡ ok (1 ∷ 2 ∷ []))
    ↔ (seal plain_stream key 7 (1 ∷ 2 ∷ []) device ≡ 1 ∷ 2 ∷ 0 ∷ 0 ∷ 0 ∷ 0 ∷ [])
open_text_iff_example =
    open_text_iff plain_stream plain_stream-laws key 7 device (1 ∷ 2 ∷ 0 ∷ 0 ∷ 0 ∷ 0 ∷ [])
      (1 ∷ 2 ∷ [])

decode_value-encode_value_example : decode_value whole bool (1 ∷ 0 ∷ []) ≡ ok (bool_value true)
unfolding encode_value
decode_value-encode_value_example =
    decode_value-encode_value whole bool (bool_value true) (0 ∷ []) tt tt refl

-- The sealed text of state number 1 for characteristic 11: the numbers have just come round.
abbrev payload : List ℕ
payload = sealed plain_stream key device 1 11 (1 ∷ replicate 7 0)

sealed-FitsOnly : FitsOnly plain_stream key device payload 1
unfolding seal partial_tag to_le_bytes from_le_bytes
sealed-FitsOnly g pt fits =
    let same : pt ≡ notification 1 11 (1 ∷ replicate 7 0) =
      same_front pt _ (replicate 4 0)
        (seal-open_text plain_stream plain_stream-laws key g device payload fits.0) in
    sym fits.2 ∙ ap own_gsn same

on_advert-advertised_example :
    ((on_advert whole plain_stream key
        (λ i. some bool)
        device
        (advertised plain_stream key device 0 1 11 (1 ∷ replicate 7 0))
        before).last_gsn
      ≡ 1)
    × ((on_advert whole plain_stream key
          (λ i. some bool)
          device
          (advertised plain_stream key device 0 1 11 (1 ∷ replicate 7 0))
          before).sent
        ≡ (record { aid = 1; iid = 11; value = bool_value true }, 1) ∷ [])
unfolding encode_value
on_advert-advertised_example =
    on_advert-advertised whole plain_stream key (λ i. some bool) device plain_stream-laws refl
      before 2 1 11 0 bool (bool_value true) (replicate 7 0) (omega arith) (omega arith)
      (omega arith) refl (omega arith) refl tt tt refl refl refl sealed-FitsOnly

on_advert_again_example :
    on_advert whole plain_stream key
      (λ i. some bool)
      device
      (0x11 ∷ 0 ∷ (device ++ payload))
      (on_advert whole plain_stream key
        (λ i. some bool)
        device
        (0x11 ∷ 0 ∷ (device ++ payload))
        before)
    ≡ on_advert whole plain_stream key
        (λ i. some bool)
        device
        (0x11 ∷ 0 ∷ (device ++ payload))
        before
on_advert_again_example =
    on_advert_again whole plain_stream key (λ i. some bool) device (0x11 ∷ 0 ∷ (device ++ payload))
      before (plain_stream-FitsOnce (0x11 ∷ 0 ∷ (device ++ payload)))

-- A regular advertisement of number 4.
abbrev fourth : List ℕ
fourth = 0x06 ∷ 0x21 ∷ 0 ∷ 1 ∷ 2 ∷ 3 ∷ 4 ∷ 5 ∷ 6 ∷ 1 ∷ 0 ∷ 4 ∷ 0 ∷ []

abbrev lamp : (iid : ℕ) → KnownChar
lamp i = record { aid = 1; iid = i; uuid = []; format = bool }

abbrev started : System ℕ
started = begin whole plain_stream key (λ i. some bool) device (lamp 11 ∷ lamp 12 ∷ []) 3 []

abbrev heard : Watch ℕ
heard = on_advert whole plain_stream key (λ i. some bool) device fourth started.watch

abbrev read_both : Watch ℕ
read_both =
    on_read whole (lamp 12) 4 (ok (0 ∷ []))
      (on_read whole (lamp 11) 4 (ok (1 ∷ [])) (record heard { poll_mark = none }))

sent_once_example : Distinct read_both.sent
unfolding on_advert on_parsed on_regular parse gsn_is_newer from_le_bytes on_read emit_result emit
    dedup_should_emit decode_value
sent_once_example =
    sent_once whole plain_stream key (λ i. some bool) device (lamp 11 ∷ lamp 12 ∷ []) 3 []
      (omega arith) (omega arith)
      (steps
        (steps (steps (steps begins (advert fourth (omega arith)) refl) (wake 4 refl refl) refl)
          (read 4 (lamp 11) (lamp 12 ∷ []) (ok (1 ∷ [])) refl) refl)
        (read 4 (lamp 12) [] (ok (0 ∷ [])) refl) refl)
      (omega arith)

read_both_run : length read_both.sent ≡ 2
unfolding on_advert on_parsed on_regular parse gsn_is_newer from_le_bytes on_read emit_result emit
    dedup_should_emit decode_value
read_both_run = refl
