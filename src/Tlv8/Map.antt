-- ===== src/Tlv8/Map.antt =====
-- crates/hap-tlv8/src/map.rs: `Tlv8Map`, the first item of a type and the integers stored in it.
use hap_rust.Common.{
  ℕ, ◌-◌, ◌%◌, ◌^◌, List, [], ◌∷◌, ◌++◌, Option, none, some, Result, ok, err, ◌>>=◌, length,
  replicate, from_le_bytes, ltb, ◌==◌, if◌then◌else◌,
}
use hap_rust.Tlv8.Types.{Tlv8Error, integer_too_large, Item}
use hap_rust.Tlv8.Reader

pub record Tlv8Map : Type 0 where
  pub items : List Item

unfoldable pub from_items : List Item → Tlv8Map
from_items is = record { items = is }

unfoldable pub parse : List ℕ → Result Tlv8Error Tlv8Map
unfolding from_items
parse bytes = do items ← Reader.parse bytes; ok (from_items items)

-- `iter().find(|(t, _)| *t == ty)` and its value
unfoldable pub find_item : List Item → ℕ → Option (List ℕ)
find_item [] ty = none
find_item ((t, v) ∷ is) ty = if t == ty then some v else find_item is ty

unfoldable pub get : Tlv8Map → ℕ → Option (List ℕ)
unfolding find_item
get m ty = find_item m.items ty

-- The value goes to the front of a buffer of eight zero bytes.
unfoldable pub decode_uint : ℕ → List ℕ → Result Tlv8Error (Option ℕ)
decode_uint width bytes =
    if ltb width (length bytes)
    then err (integer_too_large width (length bytes))
    else ok (some (from_le_bytes (bytes ++ replicate (8 - length bytes) 0)))

unfoldable pub get_uint : Tlv8Map → ℕ → ℕ → Result Tlv8Error (Option ℕ)
unfolding get decode_uint
get_uint m ty width = elim (get m ty) [ none ↦ ok none | some bytes ↦ decode_uint width bytes ]

-- `.map(|v| v as uN)`
abbrev pub narrow : ℕ → Option ℕ → Option ℕ
narrow bits none = none
narrow bits (some v) = some (v % 2 ^ bits)

unfoldable pub get_u8 : Tlv8Map → ℕ → Result Tlv8Error (Option ℕ)
get_u8 m ty = do v ← get_uint m ty 1; ok (narrow 8 v)

unfoldable pub get_u16 : Tlv8Map → ℕ → Result Tlv8Error (Option ℕ)
get_u16 m ty = do v ← get_uint m ty 2; ok (narrow 16 v)

unfoldable pub get_u32 : Tlv8Map → ℕ → Result Tlv8Error (Option ℕ)
get_u32 m ty = do v ← get_uint m ty 4; ok (narrow 32 v)

unfoldable pub get_u64 : Tlv8Map → ℕ → Result Tlv8Error (Option ℕ)
get_u64 m ty = get_uint m ty 8
