-- ===== src/Ble/Advert.antt =====
-- crates/hap-ble/src/advert.rs: the two advertisements that the controller reads.
use hap_rust.Common.{
  ℕ, ◌%◌, List, [], ◌∷◌, Option, none, some, Bool, false, leb, ◌==◌, if◌then◌else◌, length, take,
  drop, get_or, from_le_bytes,
}

pub data HapAdvert : Type 0 where
  regular : (device_id : List ℕ) (gsn : ℕ) (paired : Bool) → HapAdvert
  encrypted_notification : (advertising_id payload : List ℕ) → HapAdvert

abbrev first_byte : List ℕ → Option ℕ
first_byte [] = none
first_byte (b ∷ bs) = some b

-- The fields of a regular advertisement; the lowest bit of the status says that it is unpaired.
abbrev pub regular_of : List ℕ → HapAdvert
regular_of mfg =
    regular (take 6 (drop 3 mfg)) (from_le_bytes (get_or mfg 11 0 ∷ get_or mfg 12 0 ∷ []))
      (get_or mfg 2 0 % 2 == 0)

unfoldable pub parse : List ℕ → Option HapAdvert
parse mfg = elim (first_byte mfg) [
  | none ↦ none
  | some kind ↦
      if (if kind == 0x06 then leb 13 (length mfg) else false)
      then some (regular_of mfg)
      else if (if kind == 0x11 then leb 8 (length mfg) else false)
      then some (encrypted_notification (take 6 (drop 2 mfg)) (drop 8 mfg))
      else none
]
