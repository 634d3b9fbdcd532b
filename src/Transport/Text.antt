-- ===== src/Transport/Text.antt =====
-- The standard library's text functions that crates/hap-transport/src/http.rs calls, on UTF-8 bytes.
use hap_rust.Common.{
  ℕ, zero, suc, ◌+◌, ◌-◌, ◌*◌, List, [], ◌∷◌, ◌++◌, Option, none, some, Bool, true, false, ◌&&◌,
  ◌||◌, leb, ltb, length, map, ◌/◌, ◌%◌, ◌==◌, if◌then◌else◌, utf8_lead,
}

-- The bytes that follow a lead byte, in their ranges: those that were copied, and whether all came.
unfoldable pub tail_run : (pending lo hi : ℕ) → List ℕ → List ℕ × Bool
tail_run zero lo hi bs = ([], true)
tail_run (suc n) lo hi [] = ([], false)
tail_run (suc n) lo hi (b ∷ bs) =
    let (run, whole) = tail_run n 0x80 0xBF bs in
    if leb lo b && leb b hi then (b ∷ run, whole) else ([], false)

-- `String::from_utf8_lossy`: a sequence that is cut off or wrong becomes one U+FFFD. The number counts
-- the bytes of the sequence before that are still to be passed over.
unfoldable pub lossy_from : (skip : ℕ) → List ℕ → List ℕ
unfolding tail_run utf8_lead
lossy_from skip [] = []
lossy_from (suc k) (b ∷ bs) = lossy_from k bs
lossy_from zero (b ∷ bs) = elim (utf8_lead b) [
  | none ↦ 0xEF ∷ 0xBF ∷ 0xBD ∷ lossy_from 0 bs
  | some (n, lo, hi) ↦
      let (run, whole) = tail_run n lo hi bs in
      (if whole then b ∷ run else 0xEF ∷ 0xBF ∷ 0xBD ∷ []) ++ lossy_from (length run) bs
]

unfoldable pub from_utf8_lossy : List ℕ → List ℕ
unfolding lossy_from
from_utf8_lossy bytes = lossy_from 0 bytes

-- The length of the white space character (as Unicode has them) in front, or 0.
unfoldable pub space_len : List ℕ → ℕ
space_len [] = 0
space_len (a ∷ []) = if (leb 9 a && leb a 13) || a == 32 then 1 else 0
space_len (a ∷ b ∷ []) =
    if (leb 9 a && leb a 13) || a == 32
    then 1
    else if a == 0xC2 && (b == 0x85 || b == 0xA0)
    then 2
    else 0
space_len (a ∷ b ∷ c ∷ bs) =
    if (leb 9 a && leb a 13) || a == 32
    then 1
    else if a == 0xC2 && (b == 0x85 || b == 0xA0)
    then 2
    else if (a == 0xE1 && b == 0x9A && c == 0x80)
        || (a == 0xE2
            && b == 0x80
            && ((leb 0x80 c && leb c 0x8A) || c == 0xA8 || c == 0xA9 || c == 0xAF))
        || (a == 0xE2 && b == 0x81 && c == 0x9F)
        || (a == 0xE3 && b == 0x80 && c == 0x80)
    then 3
    else 0

unfoldable pub trim_start_from : (skip : ℕ) → List ℕ → List ℕ
unfolding space_len
trim_start_from skip [] = []
trim_start_from (suc k) (b ∷ bs) = trim_start_from k bs
trim_start_from zero (b ∷ bs) =
    let n = space_len (b ∷ bs) in
    let rest = trim_start_from (n - 1) bs in if n == 0 then b ∷ bs else rest

unfoldable pub trim_end : List ℕ → List ℕ
unfolding trim_start_from
trim_end [] = []
trim_end (b ∷ bs) =
    let rest = trim_end bs in if length (trim_start_from 0 (b ∷ bs)) == 0 then [] else b ∷ rest

unfoldable pub trim : List ℕ → List ℕ
unfolding trim_start_from trim_end
trim text = trim_end (trim_start_from 0 text)

abbrev pub ascii_lower : ℕ → ℕ
ascii_lower b = if leb 65 b && leb b 90 then b + 32 else b

unfoldable pub to_ascii_lowercase : List ℕ → List ℕ
to_ascii_lowercase text = map ascii_lower text

unfoldable pub digit_value : (radix byte : ℕ) → Option ℕ
digit_value radix b =
    let d =
      if leb 48 b && leb b 57
      then b - 48
      else if leb 97 b && leb b 122
      then b - 87
      else if leb 65 b && leb b 90
      then b - 55
      else radix in
    if ltb d radix then some d else none

unfoldable pub digits_from : (radix limit total : ℕ) → List ℕ → Option ℕ
unfolding digit_value
digits_from radix limit total [] = some total
digits_from radix limit total (b ∷ bs) = elim (digit_value radix b) [
  | none ↦ none
  | some d ↦
      let total' = total * radix + d in
      let rest = digits_from radix limit total' bs in if ltb limit total' then none else rest
]

abbrev nonempty_digits : (radix limit : ℕ) → List ℕ → Option ℕ
nonempty_digits radix limit [] = none
nonempty_digits radix limit (b ∷ bs) = digits_from radix limit 0 (b ∷ bs)

-- `from_str_radix` and `parse` of an unsigned type whose greatest value is `limit`; a plus sign may
-- stand in front.
unfoldable pub from_str_radix : (radix limit : ℕ) → List ℕ → Option ℕ
unfolding digits_from
from_str_radix radix limit [] = none
from_str_radix radix limit (b ∷ bs) =
    if b == 43 then nonempty_digits radix limit bs else nonempty_digits radix limit (b ∷ bs)

unfoldable pub decimal_from : (fuel n : ℕ) → List ℕ
decimal_from zero n = []
decimal_from (suc fuel) n = elim (ltb n 10) [
  | true ↦ (48 + n) ∷ []
  | false ↦ decimal_from fuel (n / 10) ++ (48 + n % 10) ∷ []
]

-- `{}` of a number
unfoldable pub decimal : ℕ → List ℕ
unfolding decimal_from
decimal n = decimal_from (suc n) n
