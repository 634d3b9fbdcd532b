-- ===== src/Ble/Accessory.antt =====
-- crates/hap-ble/src/accessory.rs: what is kept of an accessory, and the numbers of its events. A hash
-- map is a list of its entries, the newest first.
pub mod Watch
mod Runs
use hap_rust.Common.{
  ℕ, ◌+◌, ◌-◌, ◌%◌, ◌^◌, List, [], ◌∷◌, Option, none, some, Bool, true, false, ◌&&◌, not, ltb, ◌==◌,
  if◌then◌else◌,
}
use hap_rust.Model.Format.{CharFormat, CharValue}
use hap_rust.Crypto.Broadcast.{BroadcastKey}

-- `new.wrapping_sub(last)` of two `u16`
abbrev pub wrapping_sub : ℕ → ℕ → ℕ
wrapping_sub new last = (new + 2 ^ 16 - last) % 2 ^ 16

unfoldable pub gsn_is_newer : (new last : ℕ) → Bool
gsn_is_newer new last = not (wrapping_sub new last == 0) && ltb (wrapping_sub new last) 0x8000

pub record CharacteristicEvent (F : Type 0) : Type 0 where
  pub aid : ℕ
  pub iid : ℕ
  pub value : CharValue F

-- An entry of the map of characteristics.
pub record KnownChar : Type 0 where
  pub aid : ℕ
  pub iid : ℕ
  pub uuid : List ℕ
  pub format : CharFormat

abbrev pub lookup : ℕ → List (ℕ × ℕ) → Option ℕ
lookup iid [] = none
lookup iid ((i, g) ∷ rest) = if i == iid then some g else lookup iid rest

abbrev pub is_some_of : ℕ → Option ℕ → Bool
is_some_of gsn none = false
is_some_of gsn (some g) = g == gsn

abbrev pub none_or_newer : ℕ → Option ℕ → Bool
none_or_newer gsn none = true
none_or_newer gsn (some g) = gsn_is_newer gsn g

-- Whether to emit, and the map afterwards.
unfoldable pub dedup_should_emit : (emitted : List (ℕ × ℕ)) → (iid gsn : ℕ) → Bool × List (ℕ × ℕ)
dedup_should_emit emitted iid gsn =
    let prev = lookup iid emitted in
    if is_some_of gsn prev
    then (false, emitted)
    else (true, if none_or_newer gsn prev then (iid, gsn) ∷ emitted else emitted)
