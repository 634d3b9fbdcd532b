-- ===== src/Ble/Accessory/Watch/Numbers.antt =====
-- State numbers: how far ahead one lies, and that those that are received have two bytes.
use hap_rust.Common.{
  ℕ, suc, ◌+◌, ◌%◌, ◌^◌, ◌<◌, ◌≡◌, inl, inr, List, [], ◌∷◌, some, Bool, true, arith, All, IsByte,
  map, get_or, zero, from_le_bytes,
}
use hap_rust.Ble.Advert.{regular, parse}
use hap_rust.Ble.Accessory.{gsn_is_newer, wrapping_sub}
use hap_rust.Ble.Accessory.Watch.{candidates, count_up}
use hap_rust.Ble.Accessory.Watch.Candidates.{In}

-- How far a number lies ahead of the one where the watch began.
abbrev pub ahead : (begun gsn : ℕ) → ℕ
ahead begun gsn = wrapping_sub gsn begun

-- A newer number lies further ahead, as long as the numbers have not come round.
pub newer_ahead :
    (begun last gsn : ℕ)
    → begun < 2 ^ 16
    → last < 2 ^ 16
    → gsn < 2 ^ 16
    → gsn_is_newer gsn last ≡ true
    → ahead begun last + wrapping_sub gsn last < 2 ^ 16
    → (ahead begun gsn ≡ ahead begun last + wrapping_sub gsn last) × (0 < wrapping_sub gsn last)
unfolding gsn_is_newer
newer_ahead begun last gsn h j k newer few = ground arith

In-map-lt :
    (start gsn : ℕ) (ks : List ℕ) → In gsn (map (λ d. (start + d) % 2 ^ 16) ks) → gsn < 2 ^ 16
In-map-lt start gsn [] here = absurd here
In-map-lt start gsn (d ∷ ks) (inl e) = omega (arith, e)
In-map-lt start gsn (d ∷ ks) (inr here) = In-map-lt start gsn ks here

pub In-candidates-lt : (start gsn : ℕ) → start < 2 ^ 16 → In gsn (candidates start) → gsn < 2 ^ 16
unfolding candidates
In-candidates-lt start gsn h (inl e) = omega (arith, e)
In-candidates-lt start gsn h (inr (inl e)) = omega (arith, e)
In-candidates-lt start gsn h (inr (inr here)) = In-map-lt start gsn (count_up 2 99) here

get_or-IsByte : (bs : List ℕ) (i : ℕ) → All IsByte bs → get_or bs i 0 < 256
get_or-IsByte [] i h = omega arith
get_or-IsByte (b ∷ bs) zero h = h.0
get_or-IsByte (b ∷ bs) (suc i) h = get_or-IsByte bs i h.1

-- The number of a regular advertisement has two bytes.
pub regular-lt :
    (mfg d : List ℕ) (gsn : ℕ) (paired : Bool)
    → All IsByte mfg
    → parse mfg ≡ some (regular d gsn paired)
    → gsn < 2 ^ 16
unfolding parse from_le_bytes
regular-lt [] d gsn paired h e = cc
regular-lt (b ∷ bs) d gsn paired h e =
    ground (arith, get_or-IsByte (b ∷ bs) 11 h, get_or-IsByte (b ∷ bs) 12 h)
