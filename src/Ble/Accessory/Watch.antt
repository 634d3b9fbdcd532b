-- ===== src/Ble/Accessory/Watch.antt =====
-- crates/hap-ble/src/accessory.rs, `watch_sleepy_events_with_source`: the task that reads advertisements and
-- the task that polls. They share the map of emitted events and a channel for the newest number.
-- A value is sent with the state number that it was sent for, which the code only logs.
pub mod Candidates
pub mod Delivery
pub mod Effects
pub mod Replay
pub mod Numbers
pub mod Invariant
pub mod Once
use hap_rust.Common.{
  ℕ, zero, suc, ◌+◌, ◌%◌, ◌^◌, ◌≡◌, List, [], ◌∷◌, ◌++◌, Option, none, some, Result, ok, Bool, true,
  false, not, ltb, ◌==◌, if◌then◌else◌, length, take, drop, get_or, map, from_le_bytes, All, IsByte,
}
use hap_rust.Model.Format.{CharFormat, CharValue}
use hap_rust.Crypto.Types.{CryptoError}
use hap_rust.Crypto.PairVerify.{bytes_eq}
use hap_rust.Crypto.Broadcast.{StreamCrates, BroadcastKey, open_text}
use hap_rust.Ble.Types.{BleError}
use hap_rust.Ble.Advert.{HapAdvert, regular, encrypted_notification, parse}
use hap_rust.Ble.Values.{Floats, decode_value}
use hap_rust.Ble.Accessory.{CharacteristicEvent, KnownChar, gsn_is_newer, dedup_should_emit}

-- What the tasks share: the last number seen, the map, the unseen mark of the channel, and the events.
pub record Watch (F : Type 0) : Type 0 where
  pub last_gsn : ℕ
  pub emitted : List (ℕ × ℕ)
  pub poll_mark : Option ℕ
  pub sent : List (CharacteristicEvent F × ℕ)

-- `first`, `first + 1`, and so on.
abbrev pub count_up : (first how_many : ℕ) → List ℕ
count_up first zero = []
count_up first (suc n) = first ∷ count_up (suc first) n

-- The next number, the current one, then a window up to 100 ahead.
unfoldable pub candidates : (start : ℕ) → List ℕ
candidates start = (start + 1) % 2 ^ 16 ∷ start ∷ map (λ d. (start + d) % 2 ^ 16) (count_up 2 99)

-- The format of a characteristic by its instance id.
unfoldable pub format_of : List KnownChar → ℕ → Option CharFormat
format_of [] iid = none
format_of (c ∷ cs) iid = if c.iid == iid then some c.format else format_of cs iid

-- The fields of a decrypted notification.
abbrev pub own_gsn : List ℕ → ℕ
own_gsn pt = from_le_bytes (get_or pt 0 0 ∷ get_or pt 1 0 ∷ [])

abbrev pub changed_iid : List ℕ → ℕ
changed_iid pt = from_le_bytes (get_or pt 2 0 ∷ get_or pt 3 0 ∷ [])

abbrev pub raw_value : List ℕ → List ℕ
raw_value pt = take 8 (drop 4 pt)

module _ (fl : Floats) where
  unfoldable pub emit : CharacteristicEvent fl.F → (gsn : ℕ) → Watch fl.F → Watch fl.F
  emit ev gsn s =
      let (new, emitted') = dedup_should_emit s.emitted ev.iid gsn in
      if new
      then record s { emitted = emitted'; sent = s.sent ++ (ev, gsn) ∷ [] }
      else record s { emitted = emitted' }

  -- A value that decodes is emitted.
  unfoldable pub emit_result :
      (aid iid gsn : ℕ) → Result BleError (CharValue fl.F) → Watch fl.F → Watch fl.F
  unfolding emit
  emit_result aid iid gsn (ok v) s = emit (record { aid = aid; iid = iid; value = v }) gsn s
  emit_result aid iid gsn _ s = s

  -- A value of an unknown characteristic is dropped.
  unfoldable pub emit_known :
      Option CharFormat → (aid iid gsn : ℕ) → List ℕ → Watch fl.F → Watch fl.F
  unfolding emit_result
  emit_known none aid iid gsn raw s = s
  emit_known (some f) aid iid gsn raw s = emit_result aid iid gsn (decode_value fl f raw) s

  module _ (c : StreamCrates) (key : BroadcastKey) (formats : ℕ → Option CharFormat)
      (device_id : List ℕ) where
    -- A notification that opened under its own number.
    unfoldable pub accept : (start gsn : ℕ) → List ℕ → Watch fl.F → Watch fl.F
    unfolding emit_known
    accept start gsn pt s =
        if gsn_is_newer gsn start
        then emit_known (formats (changed_iid pt)) 1 (changed_iid pt) gsn (raw_value pt)
            (record s { last_gsn = gsn })
        else s

    -- What a candidate opens to, and what the candidates after it would give.
    unfoldable pub try_one :
        (start gsn : ℕ) → Result CryptoError (List ℕ) → (later s : Watch fl.F) → Watch fl.F
    try_one start gsn (ok pt) later s =
        if ltb (length pt) 12
        then later
        else if not (own_gsn pt == gsn)
        then later
        else accept start gsn pt s
    try_one start gsn _ later s = later

    -- The loop over the candidates.
    unfoldable pub try_all : (start : ℕ) → List ℕ → (payload : List ℕ) → Watch fl.F → Watch fl.F
    unfolding try_one
    try_all start [] payload s = s
    try_all start (gsn ∷ rest) payload s =
        try_one start gsn (open_text c key gsn payload device_id) (try_all start rest payload s) s

    unfoldable pub on_regular : (gsn : ℕ) → Watch fl.F → Watch fl.F
    on_regular gsn s =
        if gsn_is_newer gsn s.last_gsn then record s { last_gsn = gsn; poll_mark = some gsn } else s

    unfoldable pub on_parsed : Option HapAdvert → Watch fl.F → Watch fl.F
    on_parsed none s = s
    on_parsed (some (regular d gsn paired)) s = if bytes_eq d device_id then on_regular gsn s else s
    on_parsed (some (encrypted_notification id payload)) s =
        if bytes_eq id device_id then try_all s.last_gsn (candidates s.last_gsn) payload s else s

    -- One round of the advertisement task.
    unfoldable pub on_advert : List ℕ → Watch fl.F → Watch fl.F
    on_advert mfg s = on_parsed (parse mfg) s

-- The poll task waits, or has these targets left to read for a number.
pub data Poll : Type 0 where
  waiting : Poll
  reading : (gsn : ℕ) → List KnownChar → Poll

pub record System (F : Type 0) : Type 0 where
  pub watch : Watch F
  pub poll : Poll

module _ (fl : Floats) where
  -- A read of a target has ended.
  unfoldable pub on_read :
      KnownChar → (gsn : ℕ) → Result BleError (List ℕ) → Watch fl.F → Watch fl.F
  unfolding emit_result
  on_read t gsn (ok raw) s = emit_result fl t.aid t.iid gsn (decode_value fl t.format raw) s
  on_read t gsn _ s = s

  module _ (c : StreamCrates) (key : BroadcastKey) (formats : ℕ → Option CharFormat)
      (device_id : List ℕ) (targets : List KnownChar) where
    -- What can happen next. Any bytes can arrive, and a read can end in any way.
    pub data Step (s : System fl.F) : System fl.F → Type 0 where
      advert :
          (mfg : List ℕ)
          → All IsByte mfg
          → Step s (record s { watch = on_advert fl c key formats device_id mfg s.watch })
      wake :
          (gsn : ℕ)
          → s.poll ≡ waiting
          → s.watch.poll_mark ≡ some gsn
          → Step s
              (record { watch = record s.watch { poll_mark = none }; poll = reading gsn targets })
      read :
          (gsn : ℕ) (t : KnownChar) (ts : List KnownChar) (r : Result BleError (List ℕ))
          → s.poll ≡ reading gsn (t ∷ ts)
          → Step s (record { watch = on_read t gsn r s.watch; poll = reading gsn ts })
      rest : (gsn : ℕ) → s.poll ≡ reading gsn [] → Step s (record s { poll = waiting })
