-- ===== src/Ble/Accessory/Watch/Delivery.antt =====
-- A notification from the accessory to the event, and from an event back to the notification.
use hap_rust.Common.{
  ℕ, suc, ◌+◌, ◌%◌, ◌^◌, ◌≤◌, ◌<◌, ◌≡◌, refl, sym, ap, ◌∙◌, List, [], ◌∷◌, ◌++◌, Option, some, ok,
  true, false, length, length-append, take-append, drop-append, take_all, to_le_bytes,
  from_le_bytes, arith, le→leb,
}
use mathlib.Core.Path.{subst}
use hap_rust.Model.Format.{CharFormat, CharValue}
use hap_rust.Crypto.PairVerify.Handshake.{bytes_eq_refl}
use hap_rust.Crypto.Broadcast.{StreamCrates, StreamLaws, BroadcastKey, open_text, seal}
use hap_rust.Crypto.Broadcast.Exact.{open_text-seal}
use hap_rust.Ble.Advert.{encrypted_notification, parse}
use hap_rust.Ble.Values.{Floats, encode_value, decode_value}
use hap_rust.Ble.Values.RoundTrip.{IsMachine, MayFollow, transmitted, decode_value-encode_value}
use hap_rust.Ble.Accessory.{
  CharacteristicEvent, gsn_is_newer, dedup_should_emit, is_some_of, lookup,
}
use hap_rust.Ble.Accessory.Watch.{
  Watch, candidates, own_gsn, changed_iid, raw_value, emit, emit_known, emit_result, accept,
  on_parsed, on_advert,
}
use hap_rust.Ble.Accessory.Watch.Candidates.{
  In, In-candidates, gsn_is_newer_ahead, Fits, try_all_finds,
}

-- What the accessory puts into a notification: its number, the instance id, and eight bytes.
abbrev pub notification : (gsn iid : ℕ) → List ℕ → List ℕ
notification gsn iid value = to_le_bytes 2 gsn ++ (to_le_bytes 2 iid ++ value)

notification_fields :
    (gsn iid : ℕ) (value : List ℕ)
    → gsn < 2 ^ 16
    → iid < 2 ^ 16
    → length value ≡ 8
    → (12 ≤ length (notification gsn iid value))
      × (own_gsn (notification gsn iid value) ≡ gsn)
      × (changed_iid (notification gsn iid value) ≡ iid)
      × (raw_value (notification gsn iid value) ≡ value)
unfolding to_le_bytes from_le_bytes
notification_fields gsn iid value h k e =
    (omega arith, omega arith, omega arith, take_all 8 value (omega arith))

-- The advertisement that carries a sealed text.
parse_notification :
    (b : ℕ) (id payload : List ℕ)
    → length id ≡ 6
    → parse (0x11 ∷ b ∷ (id ++ payload)) ≡ some (encrypted_notification id payload)
unfolding parse
parse_notification b id payload h =
    rw
      (
        le→leb 8 (suc (suc (length (id ++ payload)))) (omega (arith, length-append id payload)),
        take-append 6 id payload (sym h),
        drop-append 6 id payload (sym h),
      )
      refl

module _ (c : StreamCrates) (key : BroadcastKey) (device_id : List ℕ) where
  -- The sealed text of a notification, and the advertisement around it.
  abbrev pub sealed : (gsn iid : ℕ) → List ℕ → List ℕ
  sealed gsn iid value = seal c key gsn (notification gsn iid value) device_id

  abbrev pub advertised : (b gsn iid : ℕ) → List ℕ → List ℕ
  advertised b gsn iid value = 0x11 ∷ b ∷ (device_id ++ sealed gsn iid value)

  -- The text fits no other number.
  abbrev pub FitsOnly : List ℕ → ℕ → Type 0
  FitsOnly payload gsn =
      (g : ℕ) (pt : List ℕ) → Fits (open_text c key g payload device_id) g pt → g ≡ gsn

module _ (fl : Floats) (c : StreamCrates) (key : BroadcastKey) (formats : ℕ → Option CharFormat)
    (device_id : List ℕ) where
  accepted :
      (s : Watch fl.F) (start gsn : ℕ) (pt : List ℕ) {f : CharFormat} {v : CharValue fl.F}
      → gsn_is_newer gsn start ≡ true
      → formats (changed_iid pt) ≡ some f
      → decode_value fl f (raw_value pt) ≡ ok v
      → accept fl c key formats device_id start gsn pt s
        ≡ emit fl
            (record { aid = 1; iid = changed_iid pt; value = v })
            gsn
            (record s { last_gsn = gsn })
  unfolding accept emit_known emit_result
  accepted s start gsn pt newer known decoded = rw (newer, known, decoded) refl

  emitted_new :
      (s : Watch fl.F) (ev : CharacteristicEvent fl.F) (gsn : ℕ)
      → is_some_of gsn (lookup ev.iid s.emitted) ≡ false
      → ((emit fl ev gsn s).last_gsn ≡ s.last_gsn)
        × ((emit fl ev gsn s).sent ≡ s.sent ++ (ev, gsn) ∷ [])
  unfolding emit dedup_should_emit
  emitted_new s ev gsn fresh = (rw fresh refl, rw fresh refl)

  module _ (laws : StreamLaws c) (six : length device_id ≡ 6) where
    notification_taken :
        (s : Watch fl.F) (gsn iid b : ℕ) (value : List ℕ)
        → In gsn (candidates s.last_gsn)
        → gsn < 2 ^ 16
        → iid < 2 ^ 16
        → length value ≡ 8
        → FitsOnly c key device_id (sealed c key device_id gsn iid value) gsn
        → on_advert fl c key formats device_id (advertised c key device_id b gsn iid value) s
          ≡ accept fl c key formats device_id s.last_gsn gsn (notification gsn iid value) s
    unfolding on_advert on_parsed
    notification_taken s gsn iid b value here small small_iid eight only =
        let text = sealed c key device_id gsn iid value in
        let (long, own, which, raw) = notification_fields gsn iid value small small_iid eight in
        rw (parse_notification b device_id text six, bytes_eq_refl device_id)
          (try_all_finds fl c key formats device_id s.last_gsn gsn (candidates s.last_gsn) text s
            here (open_text-seal c laws key gsn device_id (notification gsn iid value), long, own)
            only)

    -- A value that the accessory seals into a broadcast, under a state number at most 100 ahead
    -- that its text fits alone, is sent as an event with the decoded value, and the state number
    -- moves there, unless that characteristic and number were recorded before.
    pub on_advert-advertised :
        (s : Watch fl.F) (ahead gsn iid b : ℕ) (f : CharFormat) (v : CharValue fl.F) (fill : List ℕ)
        {raw : List ℕ}
        → s.last_gsn < 2 ^ 16
        → 1 ≤ ahead
        → ahead ≤ 100
        → gsn ≡ (s.last_gsn + ahead) % 2 ^ 16
        → iid < 2 ^ 16
        → formats iid ≡ some f
        → IsMachine fl v
        → MayFollow fl f fill
        → encode_value fl f v ≡ ok raw
        → length (raw ++ fill) ≡ 8
        → is_some_of gsn (lookup iid s.emitted) ≡ false
        → FitsOnly c key device_id (sealed c key device_id gsn iid (raw ++ fill)) gsn
        → ((on_advert fl c key formats device_id
              (advertised c key device_id b gsn iid (raw ++ fill))
              s).last_gsn
            ≡ gsn)
          × ((on_advert fl c key formats device_id
                (advertised c key device_id b gsn iid (raw ++ fill))
                s).sent
              ≡ s.sent ++ (record { aid = 1; iid = iid; value = transmitted fl v }, gsn) ∷ [])
    on_advert-advertised s ahead gsn iid b f v fill {raw} small one hundred at small_iid known
          machine end enc eight fresh only =
        let small_gsn : gsn < 2 ^ 16 = omega arith in
        let (long, own, which, value) =
          notification_fields gsn iid (raw ++ fill) small_gsn small_iid eight in
        let here =
          subst (λ g. In g (candidates s.last_gsn)) (sym at)
            (In-candidates s.last_gsn ahead one hundred) in
        let newer =
          subst (λ g. gsn_is_newer g s.last_gsn ≡ true) (sym at)
            (gsn_is_newer_ahead s.last_gsn ahead small one hundred) in
        let taken =
          notification_taken s gsn iid b (raw ++ fill) here small_gsn small_iid eight only in
        let decoded : decode_value fl f (raw_value (notification gsn iid (raw ++ fill)))
            ≡ ok (transmitted fl v) =
          ap (decode_value fl f) value ∙ decode_value-encode_value fl f v fill machine end enc in
        let known' = ap formats which ∙ known in
        let whole =
          taken
          ∙ accepted s s.last_gsn gsn _ newer known' decoded
          ∙ ap
              (λ i.
                emit fl (record { aid = 1; iid = i; value = transmitted fl v }) gsn
                  (record s { last_gsn = gsn }))
              which in
        let moved = record s { last_gsn = gsn } in
        let (last, sent) =
          emitted_new moved (record { aid = 1; iid = iid; value = transmitted fl v }) gsn fresh in
        (ap (λ t. t.last_gsn) whole ∙ last, ap (λ t. t.sent) whole ∙ sent)
