-- ===== src/Ble/Accessory/Watch/Once.antt =====
-- Each change is reported once, however the two tasks take turns.
use hap_rust.Common.{
  ℕ, ◌+◌, ◌^◌, ◌≤◌, ◌<◌, ◌≡◌, refl, sym, ap, ◌∙◌, inl, inr, List, [], ◌∷◌, ◌++◌, Option, none, some,
  Result, true, arith, All, All-append, IsByte,
}
use mathlib.Core.Path.{subst}
use hap_rust.Model.Format.{CharFormat}
use hap_rust.Crypto.Broadcast.{StreamCrates, BroadcastKey}
use hap_rust.Ble.Types.{BleError}
use hap_rust.Ble.Values.{Floats}
use hap_rust.Ble.Accessory.{CharacteristicEvent, KnownChar, gsn_is_newer, wrapping_sub}
use hap_rust.Ble.Accessory.Watch.{
  Watch, changed_iid, on_read, Poll, waiting, reading, System, Step, advert, wake, read, rest,
}
use hap_rust.Ble.Accessory.Watch.Numbers.{ahead, newer_ahead, In-candidates-lt, regular-lt}
use hap_rust.Ble.Accessory.Watch.Invariant.{
  Sent, Distinct, Distinct-append, Apart, All-map, Behind, Marked, Polling, Inv, Behind-later,
  Marked-later, Polling-later, new_number, new_polls, new-Behind, new-Distinct, new-Marked,
  new-Polling,
}
use hap_rust.Ble.Accessory.Watch.Effects.{
  on_read-SentAtMost, Bumped, Notified, Effect, on_advert-Effect,
}

-- What the invariant says of the events that were sent.
abbrev Known : {F : Type 0} (begun n : ℕ) → Poll → Option ℕ → Sent F → Type 0
Known begun n poll mark sent =
    Behind begun n sent × Distinct sent × Marked begun n sent poll mark × Polling begun n sent poll

-- A newer number moves the watch ahead by what lies between.
advance :
    {F : Type 0} (begun n m gsn : ℕ) (s : System F)
    → begun < 2 ^ 16
    → gsn < 2 ^ 16
    → gsn_is_newer gsn s.watch.last_gsn ≡ true
    → m ≡ n + wrapping_sub gsn s.watch.last_gsn
    → m < 2 ^ 16
    → Inv begun n s
    → (ahead begun gsn ≡ m) × (n < m)
advance begun n m gsn s b g newer far few inv =
    let (at, on) =
      newer_ahead begun s.watch.last_gsn gsn b inv.two_bytes g newer
        (omega (arith, far, few, inv.came)) in
    (omega (arith, at, far, inv.came), omega (arith, on, far))

module _ (fl : Floats) (c : StreamCrates) (key : BroadcastKey) (formats : ℕ → Option CharFormat)
    (device_id : List ℕ) (begun n m : ℕ) (mfg : List ℕ) (s : System fl.F) (w : Watch fl.F)
    (b : begun < 2 ^ 16) (far : m ≡ n + wrapping_sub w.last_gsn s.watch.last_gsn) (few : m < 2 ^ 16)
    (inv : Inv begun n s) where
  same-Inv : w ≡ s.watch → Inv begun m (record s { watch = w })
  same-Inv same =
      let last : w.last_gsn ≡ s.watch.last_gsn = ap (λ x. x.last_gsn) same in
      let still : n ≡ m = omega (arith, far, last) in
      subst (λ x. Inv begun m (record s { watch = x })) (sym same)
        (subst (λ k. Inv begun k s) still inv)

  Bumped-Inv :
      All IsByte mfg
      → Bumped fl c key formats device_id mfg s.watch w
      → Inv begun m (record s { watch = w })
  Bumped-Inv bytes h =
      let small = regular-lt mfg device_id h.gsn h.paired bytes h.parsed in
      let last : w.last_gsn ≡ h.gsn = ap (λ x. x.last_gsn) h.after in
      let far' : m ≡ n + wrapping_sub h.gsn s.watch.last_gsn =
        far ∙ ap (λ g. n + wrapping_sub g s.watch.last_gsn) last in
      let (at, on) = advance begun n m h.gsn s b small h.newer far' few inv in
      let on' : n ≤ m = omega (arith, on) in
      subst (λ x. Inv begun m (record s { watch = x })) (sym h.after)
        record {
          two_bytes = small;
          came = at;
          behind = Behind-later begun n m on' s.watch.sent inv.behind;
          distinct = inv.distinct;
          marked = (
            omega (arith, at),
            new_number begun n m h.gsn on at s.watch.sent inv.behind,
            new_polls begun n m h.gsn on at s.watch.sent s.poll inv.polling,
          );
          polling = Polling-later begun n m on' s.watch.sent s.poll inv.polling;
        }

  Notified-Inv :
      Notified fl c key formats device_id mfg s.watch w → Inv begun m (record s { watch = w })
  Notified-Inv h =
      let small = In-candidates-lt s.watch.last_gsn h.gsn inv.two_bytes h.window in
      let far' : m ≡ n + wrapping_sub h.gsn s.watch.last_gsn =
        far ∙ ap (λ g. n + wrapping_sub g s.watch.last_gsn) h.last in
      let (at, on) = advance begun n m h.gsn s b small h.newer far' few inv in
      let on' : n ≤ m = omega (arith, on) in
      let known : Known begun m s.poll s.watch.poll_mark w.sent = elim (h.events) [
        | inl same ↦ subst (Known begun m s.poll s.watch.poll_mark) (sym same) (
          Behind-later begun n m on' s.watch.sent inv.behind,
          inv.distinct,
          Marked-later begun n m on' s.watch.sent s.poll s.watch.poll_mark inv.marked,
          Polling-later begun n m on' s.watch.sent s.poll inv.polling,
        )
        | inr (f, v, known, decoded, one) ↦
            let ev : CharacteristicEvent fl.F = record {
              aid = 1;
              iid = changed_iid h.pt;
              value = v;
            } in
            subst (Known begun m s.poll s.watch.poll_mark) (sym one) (
              new-Behind begun n m h.gsn on at ev s.watch.sent inv.behind,
              new-Distinct begun n m h.gsn on at ev s.watch.sent inv.behind inv.distinct,
              new-Marked begun n m h.gsn on at ev s.watch.sent s.poll s.watch.poll_mark inv.marked,
              new-Polling begun n m h.gsn on at ev s.watch.sent s.poll inv.polling,
            )
      ] in
      record {
        two_bytes = subst (λ g. g < 2 ^ 16) (sym h.last) small;
        came = ap (ahead begun) h.last ∙ at;
        behind = known.0;
        distinct = known.1;
        marked = subst (Marked begun m w.sent s.poll) (sym h.mark_kept) known.2;
        polling = known.3;
      }

  -- One advertisement keeps the invariant.
  advert-Inv :
      All IsByte mfg
      → Effect fl c key formats device_id mfg s.watch w
      → Inv begun m (record s { watch = w })
  advert-Inv bytes (inl same) = same-Inv same
  advert-Inv bytes (inr (inl bump)) = Bumped-Inv bytes bump
  advert-Inv bytes (inr (inr note)) = Notified-Inv note

Marked-tail :
    {F : Type 0} (begun n gsn : ℕ) (t : KnownChar) (ts : List KnownChar) (sent : Sent F)
    (mark : Option ℕ)
    → Marked begun n sent (reading gsn (t ∷ ts)) mark
    → Marked begun n sent (reading gsn ts) mark
Marked-tail begun n gsn t ts sent none h = tt
Marked-tail begun n gsn t ts sent (some g) h = h

Marked-rest :
    {F : Type 0} (begun n : ℕ) (poll : Poll) (sent : Sent F) (mark : Option ℕ)
    → Marked begun n sent poll mark
    → Marked begun n sent waiting mark
Marked-rest begun n poll sent none h = tt
Marked-rest begun n poll sent (some g) h = (h.0, h.1, tt)

-- The number that is being read for is not the one in the channel.
Marked-read :
    {F : Type 0} (begun n gsn : ℕ) (ts : List KnownChar) (ev : CharacteristicEvent F)
    (sent : Sent F) (mark : Option ℕ)
    → Marked begun n sent (reading gsn ts) mark
    → Marked begun n (sent ++ (ev, gsn) ∷ []) (reading gsn ts) mark
Marked-read begun n gsn ts ev sent none h = tt
Marked-read begun n gsn ts ev sent (some g) h =
    (h.0, All-append _ sent ((ev, gsn) ∷ []) h.1 (h.2, tt), h.2)

-- A read of the target in front has ended.
read-Inv :
    (fl : Floats) (begun n gsn : ℕ) (t : KnownChar) (ts : List KnownChar)
    (r : Result BleError (List ℕ)) (s : System fl.F)
    → s.poll ≡ reading gsn (t ∷ ts)
    → Inv begun n s
    → Inv begun n (record { watch = on_read fl t gsn r s.watch; poll = reading gsn ts })
read-Inv fl begun n gsn t ts r s at inv =
    let (raw, effect) = on_read-SentAtMost fl t gsn r s.watch in
    let w = on_read fl t gsn r s.watch in
    let polling = subst (Polling begun n s.watch.sent) at inv.polling in
    let marked = subst (λ p. Marked begun n s.watch.sent p s.watch.poll_mark) at inv.marked in
    let known : Known begun n (reading gsn ts) s.watch.poll_mark w.sent = elim (effect.events) [
      | inl same ↦ subst (Known begun n (reading gsn ts) s.watch.poll_mark) (sym same) (
        inv.behind,
        inv.distinct,
        Marked-tail begun n gsn t ts s.watch.sent s.watch.poll_mark marked,
        (polling.0, All-map (λ e k q. (k q).1) s.watch.sent polling.1, polling.2.1),
      )
      | inr (v, decoded, one) ↦
          let ev : CharacteristicEvent fl.F = record { aid = t.aid; iid = t.iid; value = v } in
          subst (Known begun n (reading gsn ts) s.watch.poll_mark) (sym one) (
            All-append _ s.watch.sent ((ev, gsn) ∷ []) inv.behind (polling.0, tt),
            Distinct-append s.watch.sent (ev, gsn) inv.distinct
                (All-map (λ x k same g. (k g).0 (sym same)) s.watch.sent polling.1),
            Marked-read begun n gsn ts ev s.watch.sent s.watch.poll_mark
                (Marked-tail begun n gsn t ts s.watch.sent s.watch.poll_mark marked),
            (
              polling.0,
              All-append _ s.watch.sent ((ev, gsn) ∷ [])
                  (All-map (λ e k q. (k q).1) s.watch.sent polling.1) ((λ _. polling.2.0), tt),
              polling.2.1,
            ),
          )
    ] in
    record {
      two_bytes = subst (λ g. g < 2 ^ 16) (sym effect.last_kept) inv.two_bytes;
      came = ap (ahead begun) effect.last_kept ∙ inv.came;
      behind = known.0;
      distinct = known.1;
      marked = subst (Marked begun n w.sent (reading gsn ts)) (sym effect.mark_kept) known.2;
      polling = known.3;
    }

-- The poll task takes the mark out of the channel.
wake-Inv :
    {F : Type 0} (begun n gsn : ℕ) (targets : List KnownChar) (s : System F)
    → Apart targets
    → s.poll ≡ waiting
    → s.watch.poll_mark ≡ some gsn
    → Inv begun n s
    → Inv begun n
        (record { watch = record s.watch { poll_mark = none }; poll = reading gsn targets })
wake-Inv begun n gsn targets s apart idle mark inv =
    let marked : Marked begun n s.watch.sent waiting (some gsn) =
      subst (Marked begun n s.watch.sent waiting) mark
        (Marked-rest begun n s.poll s.watch.sent s.watch.poll_mark inv.marked) in
    record {
      two_bytes = inv.two_bytes;
      came = inv.came;
      behind = inv.behind;
      distinct = inv.distinct;
      marked = tt;
      polling = (marked.0, All-map (λ e ne q. absurd (ne q)) s.watch.sent marked.1, apart);
    }

rest-Inv :
    {F : Type 0} (begun n : ℕ) (s : System F)
    → Inv begun n s
    → Inv begun n (record s { poll = waiting })
rest-Inv begun n s inv = record {
  two_bytes = inv.two_bytes;
  came = inv.came;
  behind = inv.behind;
  distinct = inv.distinct;
  marked = Marked-rest begun n s.poll s.watch.sent s.watch.poll_mark inv.marked;
  polling = tt;
}

-- A step that leaves the number as it is.
still :
    {F : Type 0} (begun n m : ℕ) (s t : System F)
    → t.watch.last_gsn ≡ s.watch.last_gsn
    → m ≡ n + wrapping_sub t.watch.last_gsn s.watch.last_gsn
    → Inv begun n t
    → Inv begun m t
still begun n m s t same far inv =
    let e : n ≡ m = omega (arith, far, same) in subst (λ k. Inv begun k t) e inv

module _ (fl : Floats) (c : StreamCrates) (key : BroadcastKey) (formats : ℕ → Option CharFormat)
    (device_id : List ℕ) (targets : List KnownChar) where
  pub Step-Inv :
      (begun n m : ℕ) {s t : System fl.F}
      → begun < 2 ^ 16
      → Apart targets
      → Step fl c key formats device_id targets s t
      → m ≡ n + wrapping_sub t.watch.last_gsn s.watch.last_gsn
      → m < 2 ^ 16
      → Inv begun n s
      → Inv begun m t
  Step-Inv begun n m {s} b apart (advert mfg bytes) far few inv =
      advert-Inv fl c key formats device_id begun n m mfg s _ b far few inv bytes
        (on_advert-Effect fl c key formats device_id mfg s.watch)
  Step-Inv begun n m {s} b apart (wake gsn idle mark) far few inv =
      still begun n m s _ refl far (wake-Inv begun n gsn targets s apart idle mark inv)
  Step-Inv begun n m {s} b apart (read gsn t ts r at) far few inv =
      still begun n m s _ (on_read-SentAtMost fl t gsn r s.watch).1.last_kept far
        (read-Inv fl begun n gsn t ts r s at inv)
  Step-Inv begun n m {s} b apart (rest gsn at) far few inv =
      still begun n m s _ refl far (rest-Inv begun n s inv)

  -- Nothing sent, nothing marked, nothing being read.
  abbrev pub begin : (begun : ℕ) (emitted : List (ℕ × ℕ)) → System fl.F
  begin begun emitted = record {
    watch = record { last_gsn = begun; emitted = emitted; poll_mark = none; sent = [] };
    poll = waiting;
  }

  -- Steps one after the other, and how far the state number moves over them.
  pub data Run (s : System fl.F) : System fl.F → ℕ → Type 0 where
    begins : Run s s 0
    steps :
        {t u : System fl.F} {n m : ℕ}
        → Run s t n
        → Step fl c key formats device_id targets t u
        → m ≡ n + wrapping_sub u.watch.last_gsn t.watch.last_gsn
        → Run s u m

  Run-Inv :
      (begun : ℕ) (emitted : List (ℕ × ℕ)) {t : System fl.F} {n : ℕ}
      → begun < 2 ^ 16
      → Apart targets
      → Run (begin begun emitted) t n
      → n < 2 ^ 16
      → Inv begun n t
  Run-Inv begun emitted b apart begins few = record {
    two_bytes = b;
    came = omega arith;
    behind = tt;
    distinct = tt;
    marked = tt;
    polling = tt;
  }
  Run-Inv begun emitted b apart (steps {n} {m} r st far) few =
      Step-Inv begun n m b apart st far few
        (Run-Inv begun emitted b apart r (omega (arith, far, few)))

  -- However the advertisement task and the poll task take turns, whatever arrives and however
  -- reads end, no two events are sent for one characteristic and one state number, as long as the
  -- poll targets are distinct and the state number has not come round since the watch began.
  pub sent_once :
      (begun : ℕ) (emitted : List (ℕ × ℕ)) {t : System fl.F} {n : ℕ}
      → begun < 2 ^ 16
      → Apart targets
      → Run (begin begun emitted) t n
      → n < 2 ^ 16
      → Distinct t.watch.sent
  sent_once begun emitted b apart r few = (Run-Inv begun emitted b apart r few).distinct
