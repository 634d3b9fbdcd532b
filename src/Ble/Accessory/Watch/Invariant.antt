-- ===== src/Ble/Accessory/Watch/Invariant.antt =====
-- What holds at every time of the two tasks: how the events, the mark and the poll lie to each other.
use hap_rust.Common.{
  ℕ, ◌^◌, ◌≤◌, ◌<◌, ◌≡◌, ◌≢◌, sym, ap, List, [], ◌∷◌, ◌++◌, Option, none, some, arith, All,
  All-append,
}
use hap_rust.Ble.Accessory.{CharacteristicEvent, KnownChar}
use hap_rust.Ble.Accessory.Watch.{Poll, waiting, reading, System}
use hap_rust.Ble.Accessory.Watch.Numbers.{ahead}

abbrev pub Sent : Type 0 → Type 0
Sent F = List (CharacteristicEvent F × ℕ)

module _ {F : Type 0} where
  -- Not the same characteristic and the same number.
  abbrev pub Differ : CharacteristicEvent F × ℕ → CharacteristicEvent F × ℕ → Type 0
  Differ (a, g) (b, h) = a.iid ≡ b.iid → g ≢ h

  abbrev pub Distinct : Sent F → Type 0
  Distinct [] = Unit {0}
  Distinct (e ∷ es) = All (Differ e) es × Distinct es

  pub Distinct-append :
      (es : Sent F) (e : CharacteristicEvent F × ℕ)
      → Distinct es
      → All (λ x. Differ x e) es
      → Distinct (es ++ e ∷ [])
  Distinct-append [] e d h = (tt, tt)
  Distinct-append (x ∷ xs) e d h =
      (All-append (Differ x) xs (e ∷ []) d.0 (h.0, tt), Distinct-append xs e d.1 h.1)

-- Targets of different instance ids.
abbrev pub Apart : List KnownChar → Type 0
Apart [] = Unit {0}
Apart (t ∷ ts) = All (λ u. u.iid ≢ t.iid) ts × Apart ts

pub All-map {ℓ κ} :
    {A : Type ℓ} {P Q : A → Type κ} (f : (a : A) → P a → Q a) (xs : List A) → All P xs → All Q xs
All-map f [] h = tt
All-map f (x ∷ xs) h = (f x h.0, All-map f xs h.1)

abbrev pub PollsOther : ℕ → Poll → Type 0
PollsOther g waiting = Unit {0}
PollsOther g (reading h ts) = h ≢ g

-- What holds at every time. `n` is how far the numbers have moved since the watch began.
module _ {F : Type 0} (begun : ℕ) where
  abbrev pub Behind : ℕ → Sent F → Type 0
  Behind n sent = All (λ e. ahead begun e.1 ≤ n) sent

  -- A mark in the channel is of a number for which nothing was sent and that is not being read for.
  abbrev pub Marked : ℕ → Sent F → Poll → Option ℕ → Type 0
  Marked n sent poll none = Unit {0}
  Marked n sent poll (some g) = (ahead begun g ≤ n) × All (λ e. e.1 ≢ g) sent × PollsOther g poll

  -- For the number that is being read for, nothing was sent of the targets that are left.
  abbrev pub Polling : ℕ → Sent F → Poll → Type 0
  Polling n sent waiting = Unit {0}
  Polling n sent (reading g ts) =
      (ahead begun g ≤ n) × All (λ e. e.1 ≡ g → All (λ t. t.iid ≢ e.0.iid) ts) sent × Apart ts

  pub record Inv (n : ℕ) (s : System F) : Type 0 where
    pub two_bytes : s.watch.last_gsn < 2 ^ 16
    pub came : ahead begun s.watch.last_gsn ≡ n
    pub behind : Behind n s.watch.sent
    pub distinct : Distinct s.watch.sent
    pub marked : Marked n s.watch.sent s.poll s.watch.poll_mark
    pub polling : Polling n s.watch.sent s.poll

module _ {F : Type 0} (begun n m : ℕ) (on : n ≤ m) where
  pub Behind-later : (sent : Sent F) → Behind begun n sent → Behind begun m sent
  Behind-later sent h = All-map (λ e k. omega (arith, on, k)) sent h

  pub Marked-later :
      (sent : Sent F) (poll : Poll) (mark : Option ℕ)
      → Marked begun n sent poll mark
      → Marked begun m sent poll mark
  Marked-later sent poll none h = tt
  Marked-later sent poll (some g) h = (omega (arith, on, h.0), h.1, h.2)

  pub Polling-later :
      (sent : Sent F) (poll : Poll) → Polling begun n sent poll → Polling begun m sent poll
  Polling-later sent waiting h = tt
  Polling-later sent (reading g ts) h = (omega (arith, on, h.0), h.1, h.2)

-- A number that lies further ahead than all before, and an event for it.
module _ (begun n m g : ℕ) (on : n < m) (at : ahead begun g ≡ m) where
  unlike : (h : ℕ) → ahead begun h ≤ n → h ≢ g
  unlike h k e = let same = ap (ahead begun) e in absurd (omega (arith, on, at, k, same))

  module _ {F : Type 0} (sent : Sent F) where
    pub new_number : Behind begun n sent → All (λ e. e.1 ≢ g) sent
    new_number h = All-map (λ e k. unlike e.1 k) sent h

    pub new_polls : (poll : Poll) → Polling begun n sent poll → PollsOther g poll
    new_polls waiting h = tt
    new_polls (reading x ts) h = unlike x h.0

  module _ {F : Type 0} (ev : CharacteristicEvent F) (sent : Sent F) where
    pub new-Behind : Behind begun n sent → Behind begun m (sent ++ (ev, g) ∷ [])
    new-Behind h =
        All-append _ sent ((ev, g) ∷ []) (Behind-later begun n m (omega (arith, on)) sent h)
          (omega (arith, at), tt)

    pub new-Distinct : Behind begun n sent → Distinct sent → Distinct (sent ++ (ev, g) ∷ [])
    new-Distinct h d =
        Distinct-append sent (ev, g) d (All-map (λ e ne _. ne) sent (new_number sent h))

    pub new-Marked :
        (poll : Poll) (mark : Option ℕ)
        → Marked begun n sent poll mark
        → Marked begun m (sent ++ (ev, g) ∷ []) poll mark
    new-Marked poll none h = tt
    new-Marked poll (some x) h = (
      omega (arith, on, h.0),
      All-append _ sent ((ev, g) ∷ []) h.1 ((λ e. unlike x h.0 (sym e)), tt),
      h.2,
    )

    pub new-Polling :
        (poll : Poll) → Polling begun n sent poll → Polling begun m (sent ++ (ev, g) ∷ []) poll
    new-Polling waiting h = tt
    new-Polling (reading x ts) h = (
      omega (arith, on, h.0),
      All-append _ sent ((ev, g) ∷ []) h.1 ((λ e. absurd (unlike x h.0 (sym e))), tt),
      h.2,
    )
