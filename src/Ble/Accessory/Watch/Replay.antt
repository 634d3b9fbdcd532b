-- ===== src/Ble/Accessory/Watch/Replay.antt =====
-- The same advertisement received again.
use hap_rust.Common.{ℕ, ◌≡◌, refl, sym, ap, ◌∙◌, inl, inr, List, Option, some, false, arith}
use hap_rust.Model.Format.{CharFormat}
use hap_rust.Crypto.PairVerify.Handshake.{bytes_eq_refl}
use hap_rust.Crypto.Broadcast.{StreamCrates, BroadcastKey, open_text}
use hap_rust.Ble.Values.{Floats}
use hap_rust.Ble.Advert.{encrypted_notification, parse}
use hap_rust.Ble.Accessory.{gsn_is_newer}
use hap_rust.Ble.Accessory.Watch.{Watch, candidates, on_regular, on_parsed, on_advert}
use hap_rust.Ble.Accessory.Watch.Candidates.{Fits, try_all_cases}
use hap_rust.Ble.Accessory.Watch.Effects.{Bumped, Notified, on_advert-Effect}

gsn_is_newer_self : (gsn : ℕ) → gsn_is_newer gsn gsn ≡ false
unfolding gsn_is_newer
gsn_is_newer_self gsn = ground arith

module _ (fl : Floats) (c : StreamCrates) (key : BroadcastKey) (formats : ℕ → Option CharFormat)
    (device_id : List ℕ) where
  -- The broadcast text of the advertisement, if it has one for this device, fits one state number at most.
  abbrev pub FitsOnce : List ℕ → Type 0
  FitsOnce mfg =
      (payload : List ℕ) (g h : ℕ) (pt qt : List ℕ)
      → parse mfg ≡ some (encrypted_notification device_id payload)
      → Fits (open_text c key g payload device_id) g pt
      → Fits (open_text c key h payload device_id) h qt
      → g ≡ h

  Bumped-again :
      (mfg : List ℕ) (s t : Watch fl.F)
      → Bumped fl c key formats device_id mfg s t
      → on_advert fl c key formats device_id mfg t ≡ t
  unfolding on_advert on_parsed on_regular
  Bumped-again mfg s t b =
      let last : t.last_gsn ≡ b.gsn = ap (λ w. w.last_gsn) b.after in
      rw (b.parsed, bytes_eq_refl device_id, last, gsn_is_newer_self b.gsn) refl

  Notified-again :
      (mfg : List ℕ) (s t : Watch fl.F)
      → FitsOnce mfg
      → Notified fl c key formats device_id mfg s t
      → on_advert fl c key formats device_id mfg t ≡ t
  unfolding on_advert on_parsed
  Notified-again mfg s t once n =
      rw (n.parsed, bytes_eq_refl device_id)
        (elim (try_all_cases fl c key formats device_id t.last_gsn (candidates t.last_gsn) n.payload
          t) [
            | inl same ↦ same
            | inr (gsn, pt, here, fits, newer, e) ↦
                let last : gsn ≡ t.last_gsn =
                  once n.payload gsn n.gsn pt n.pt n.parsed fits n.fits ∙ sym n.last in
                let stale =
                  ap (λ g. gsn_is_newer g t.last_gsn) last ∙ gsn_is_newer_self t.last_gsn in
                absurd (cc)
          ])

  -- Receiving an advertisement a second time changes nothing, where the broadcast text that it carries for
  -- this device, if it does, fits one state number at most.
  pub on_advert_again :
      (mfg : List ℕ) (s : Watch fl.F)
      → FitsOnce mfg
      → on_advert fl c key formats device_id mfg (on_advert fl c key formats device_id mfg s)
        ≡ on_advert fl c key formats device_id mfg s
  on_advert_again mfg s once = elim (on_advert-Effect fl c key formats device_id mfg s) [
    | inl same ↦ ap (on_advert fl c key formats device_id mfg) same
    | inr (inl b) ↦ Bumped-again mfg s _ b
    | inr (inr n) ↦ Notified-again mfg s _ once n
  ]
