-- ===== src/Ble/Accessory/Watch/Effects.antt =====
-- What one advertisement can change.
use hap_rust.Common.{
  ℕ, ◌≡◌, refl, sym, ap, ◌∙◌, ◌⊎◌, inl, inr, List, [], ◌∷◌, ◌++◌, Option, none, some, Result, ok,
  err, stuck, Bool, true, Bool-cases,
}
use mathlib.Core.Path.{subst}
use hap_rust.Model.Format.{CharFormat, CharValue}
use hap_rust.Crypto.PairVerify.{bytes_eq}
use hap_rust.Crypto.PairVerify.Safety.{bytes_eq→≡}
use hap_rust.Crypto.Broadcast.{StreamCrates, BroadcastKey, open_text}
use hap_rust.Ble.Types.{BleError}
use hap_rust.Ble.Advert.{HapAdvert, regular, encrypted_notification, parse}
use hap_rust.Ble.Values.{Floats, decode_value}
use hap_rust.Ble.Accessory.{
  CharacteristicEvent, KnownChar, gsn_is_newer, dedup_should_emit, is_some_of, lookup,
}
use hap_rust.Ble.Accessory.Watch.{
  Watch, candidates, changed_iid, raw_value, emit, emit_known, emit_result, on_read, accept,
  try_all, on_regular, on_parsed, on_advert,
}
use hap_rust.Ble.Accessory.Watch.Candidates.{In, Fits, try_all_cases}

module _ (fl : Floats) where
  -- Between two states at most one event is sent, for this number and this instance id, with a value
  -- that these bytes decode to; the other fields that matter stay.
  pub record SentAtMost (s t : Watch fl.F) (aid iid gsn : ℕ) (f : CharFormat) (raw : List ℕ)
      : Type 0 where
    pub last_kept : t.last_gsn ≡ s.last_gsn
    pub mark_kept : t.poll_mark ≡ s.poll_mark
    pub events :
        (t.sent ≡ s.sent)
        ⊎ ((v : CharValue fl.F) × (decode_value fl f raw ≡ ok v)
            × (t.sent ≡ s.sent ++ (record { aid = aid; iid = iid; value = v }, gsn) ∷ []))

  emit_fields :
      (ev : CharacteristicEvent fl.F) (gsn : ℕ) (s : Watch fl.F)
      → ((emit fl ev gsn s).last_gsn ≡ s.last_gsn)
        × ((emit fl ev gsn s).poll_mark ≡ s.poll_mark)
        × (((emit fl ev gsn s).sent ≡ s.sent)
            ⊎ ((emit fl ev gsn s).sent ≡ s.sent ++ (ev, gsn) ∷ []))
  unfolding emit dedup_should_emit
  emit_fields ev gsn s = elim (Bool-cases (is_some_of gsn (lookup ev.iid s.emitted))) [
    | inl old ↦ (rw old refl, rw old refl, inl (rw old refl))
    | inr new ↦ (rw new refl, rw new refl, inr (rw new refl))
  ]

  emit_result-SentAtMost :
      (f : CharFormat) (aid iid gsn : ℕ) (raw : List ℕ) (s : Watch fl.F)
      (r : Result BleError (CharValue fl.F))
      → decode_value fl f raw ≡ r
      → SentAtMost s (emit_result fl aid iid gsn r s) aid iid gsn f raw
  unfolding emit_result
  emit_result-SentAtMost f aid iid gsn raw s (err e) h = record {
    last_kept = refl;
    mark_kept = refl;
    events = inl refl;
  }
  emit_result-SentAtMost f aid iid gsn raw s stuck h = record {
    last_kept = refl;
    mark_kept = refl;
    events = inl refl;
  }
  emit_result-SentAtMost f aid iid gsn raw s (ok v) h =
      let (last, mark, sent) = emit_fields (record { aid = aid; iid = iid; value = v }) gsn s in
      record {
        last_kept = last;
        mark_kept = mark;
        events = elim sent [ inl same ↦ inl same | inr one ↦ inr (v, h, one) ];
      }

  pub on_read-SentAtMost :
      (t : KnownChar) (gsn : ℕ) (r : Result BleError (List ℕ)) (s : Watch fl.F)
      → (raw : List ℕ) × SentAtMost s (on_read fl t gsn r s) t.aid t.iid gsn t.format raw
  unfolding on_read
  on_read-SentAtMost t gsn (ok raw) s =
      (raw, emit_result-SentAtMost t.format t.aid t.iid gsn raw s _ refl)
  on_read-SentAtMost t gsn (err e) s =
      ([], record { last_kept = refl; mark_kept = refl; events = inl refl })
  on_read-SentAtMost t gsn stuck s =
      ([], record { last_kept = refl; mark_kept = refl; events = inl refl })

  module _ (c : StreamCrates) (key : BroadcastKey) (formats : ℕ → Option CharFormat)
      (device_id : List ℕ) where
    -- A regular advertisement of the device with a newer number.
    pub record Bumped (mfg : List ℕ) (s t : Watch fl.F) : Type 0 where
      pub gsn : ℕ
      pub paired : Bool
      pub parsed : parse mfg ≡ some (regular device_id gsn paired)
      pub newer : gsn_is_newer gsn s.last_gsn ≡ true
      pub after : t ≡ record s { last_gsn = gsn; poll_mark = some gsn }

    -- A notification of the device that opens under a newer number, and the event sent for it, if any.
    pub record Notified (mfg : List ℕ) (s t : Watch fl.F) : Type 0 where
      pub payload : List ℕ
      pub gsn : ℕ
      pub pt : List ℕ
      pub parsed : parse mfg ≡ some (encrypted_notification device_id payload)
      pub window : In gsn (candidates s.last_gsn)
      pub fits : Fits (open_text c key gsn payload device_id) gsn pt
      pub newer : gsn_is_newer gsn s.last_gsn ≡ true
      pub last : t.last_gsn ≡ gsn
      pub mark_kept : t.poll_mark ≡ s.poll_mark
      pub events :
          (t.sent ≡ s.sent)
          ⊎ ((f : CharFormat) × (v : CharValue fl.F) × (formats (changed_iid pt) ≡ some f)
              × (decode_value fl f (raw_value pt) ≡ ok v)
              × (t.sent
                  ≡ s.sent ++ (record { aid = 1; iid = changed_iid pt; value = v }, gsn) ∷ []))

    abbrev pub Effect : (mfg : List ℕ) (s t : Watch fl.F) → Type 0
    Effect mfg s t = (t ≡ s) ⊎ (Bumped mfg s t ⊎ Notified mfg s t)

    known_events :
        (o : Option CharFormat) (iid gsn : ℕ) (raw : List ℕ) (s : Watch fl.F)
        → formats iid ≡ o
        → ((emit_known fl o 1 iid gsn raw s).last_gsn ≡ s.last_gsn)
          × ((emit_known fl o 1 iid gsn raw s).poll_mark ≡ s.poll_mark)
          × (((emit_known fl o 1 iid gsn raw s).sent ≡ s.sent)
              ⊎ ((f : CharFormat) × (v : CharValue fl.F) × (formats iid ≡ some f)
                  × (decode_value fl f raw ≡ ok v)
                  × ((emit_known fl o 1 iid gsn raw s).sent
                      ≡ s.sent ++ (record { aid = 1; iid = iid; value = v }, gsn) ∷ [])))
    unfolding emit_known
    known_events none iid gsn raw s h = (refl, refl, inl refl)
    known_events (some f) iid gsn raw s h =
        let r = emit_result-SentAtMost f 1 iid gsn raw s _ refl in
        (
          r.last_kept,
          r.mark_kept,
          elim (r.events) [
            | inl same ↦ inl same
            | inr (v, decoded, sent) ↦ inr (f, v, h, decoded, sent)
          ],
        )

    accept-Notified :
        (mfg payload : List ℕ) (s : Watch fl.F) (gsn : ℕ) (pt : List ℕ)
        → parse mfg ≡ some (encrypted_notification device_id payload)
        → In gsn (candidates s.last_gsn)
        → Fits (open_text c key gsn payload device_id) gsn pt
        → gsn_is_newer gsn s.last_gsn ≡ true
        → Notified mfg s (accept fl c key formats device_id s.last_gsn gsn pt s)
    unfolding accept
    accept-Notified mfg payload s gsn pt h here fits newer =
        let (last, mark, sent) =
          known_events (formats (changed_iid pt)) (changed_iid pt) gsn (raw_value pt)
            (record s { last_gsn = gsn }) refl in
        rw newer record {
          payload = payload;
          gsn = gsn;
          pt = pt;
          parsed = h;
          window = here;
          fits = fits;
          newer = newer;
          last = last;
          mark_kept = mark;
          events = sent;
        }

    bumped :
        (mfg : List ℕ) (gsn : ℕ) (paired : Bool) (s : Watch fl.F)
        → parse mfg ≡ some (regular device_id gsn paired)
        → Effect mfg s (on_regular fl c key formats device_id gsn s)
    unfolding on_regular
    bumped mfg gsn paired s h = elim (Bool-cases (gsn_is_newer gsn s.last_gsn)) [
      | inl newer ↦ rw newer (
          inr
            (inl (record { gsn = gsn; paired = paired; parsed = h; newer = newer; after = refl })))
      | inr stale ↦ rw stale (inl refl)
    ]

    notified :
        (mfg payload : List ℕ) (s : Watch fl.F)
        → parse mfg ≡ some (encrypted_notification device_id payload)
        → Effect mfg s
            (try_all fl c key formats device_id s.last_gsn (candidates s.last_gsn) payload s)
    notified mfg payload s h =
        elim (try_all_cases fl c key formats device_id s.last_gsn (candidates s.last_gsn) payload
          s) [
            | inl same ↦ inl same
            | inr (gsn, pt, here, fits, newer, e) ↦ inr (
                inr (
                  subst (Notified mfg s) (sym e)
                    (accept-Notified mfg payload s gsn pt h here fits newer)))
          ]

    parsed-Effect :
        (mfg : List ℕ) (s : Watch fl.F) (o : Option HapAdvert)
        → parse mfg ≡ o
        → Effect mfg s (on_parsed fl c key formats device_id o s)
    unfolding on_parsed
    parsed-Effect mfg s none h = inl refl
    parsed-Effect mfg s (some (regular d gsn paired)) h = elim (Bool-cases (bytes_eq d device_id)) [
      | inl ours ↦ rw ours (
          bumped mfg gsn paired s
            (h ∙ ap (λ x. some (regular x gsn paired)) (bytes_eq→≡ d device_id ours)))
      | inr foreign ↦ rw foreign (inl refl)
    ]
    parsed-Effect mfg s (some (encrypted_notification id payload)) h =
        elim (Bool-cases (bytes_eq id device_id)) [
          | inl ours ↦ rw ours (
              notified mfg payload s (
                h
                ∙ ap (λ x. some (encrypted_notification x payload)) (bytes_eq→≡ id device_id ours)))
          | inr foreign ↦ rw foreign (inl refl)
        ]

    pub on_advert-Effect :
        (mfg : List ℕ) (s : Watch fl.F) → Effect mfg s (on_advert fl c key formats device_id mfg s)
    unfolding on_advert
    on_advert-Effect mfg s = parsed-Effect mfg s (parse mfg) refl
