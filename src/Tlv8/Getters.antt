-- ===== src/Tlv8/Getters.antt =====
-- The typed getters of `Tlv8Map` against the writers of integers.
use hap_rust.Common.{
  ℕ, zero, suc, ◌-◌, ◌^◌, ◌≤◌, ◌<◌, ◌≡◌, refl, ap, List, [], ◌∷◌, ◌++◌, Option, none, some, Result,
  ok, err, stuck, ◌>>=◌, length, lt→ltb, All, All-append, IsByte, to_le_bytes, from_le_bytes,
  length-to_le_bytes, from_le_bytes-to_le_bytes, from_le_bytes_padded, ltb, le→ltb, ltb→le,
  Bool-cases, Option-cases, inl, inr, ◌==◌, ==_refl, arith,
}
use native.Mathlib.Nat.{pow-suc}
use mathlib.Core.Path.{subst}
use mathlib.Core.Option.{some-injective}
use native.Mathlib.Nat.{mod-eq_of_lt}
use hap_rust.Tlv8.Types.{Tlv8Error, integer_too_large, Item}
use hap_rust.Tlv8.Writer.{push, push_u8, push_u16, push_u32, push_u64}
use hap_rust.Tlv8.Map
use hap_rust.Tlv8.Map.{
  Tlv8Map, from_items, find_item, get, decode_uint, get_uint, get_u8, get_u16, get_u32, get_u64,
  narrow,
}
use hap_rust.Tlv8.RoundTrip.{IsStorable, push_all, parse-push_all}

from_le_bytes_short :
    (bs : List ℕ) (width : ℕ) → All IsByte bs → length bs ≤ width → from_le_bytes bs < 256 ^ width
unfolding from_le_bytes
from_le_bytes_short [] zero h p = omega arith
from_le_bytes_short [] (suc width) h p =
    omega (arith, pow-suc 256 width, from_le_bytes_short [] width tt (omega arith))
from_le_bytes_short (b ∷ bs) zero h p = absurd (omega arith)
from_le_bytes_short (b ∷ bs) (suc width) h p =
    omega (arith, pow-suc 256 width, from_le_bytes_short bs width h.1 (omega arith), h.0)

-- The items of a map hold bytes.
abbrev pub IsByteMap : Tlv8Map → Type 0
IsByteMap m = All (λ (i : Item). All IsByte i.1) m.items

decode_uint_exact :
    (width : ℕ) (bytes : List ℕ)
    → length bytes ≤ width
    → decode_uint width bytes ≡ ok (some (from_le_bytes bytes))
unfolding decode_uint
decode_uint_exact width bytes h =
    rw (le→ltb (length bytes) width h, from_le_bytes_padded bytes (8 - length bytes)) refl

-- The values that `decode_uint` returns fit its width.
decode_uint-lt :
    (width : ℕ) (bytes : List ℕ) (v : ℕ)
    → All IsByte bytes
    → decode_uint width bytes ≡ ok (some v)
    → v < 256 ^ width
unfolding decode_uint
decode_uint-lt width bytes v h e = elim (Bool-cases (ltb width (length bytes))) [
  | inl long ↦ cc (rw long at e)
  | inr short ↦ ground (
    arith,
    from_le_bytes_padded bytes (8 - length bytes),
    from_le_bytes_short bytes width h (ltb→le (length bytes) width short),
  )
]

find_item-bytes :
    (is : List Item) (ty : ℕ) (v : List ℕ)
    → All (λ (i : Item). All IsByte i.1) is
    → find_item is ty ≡ some v
    → All IsByte v
unfolding find_item
find_item-bytes [] ty v h e = cc
find_item-bytes ((t, w) ∷ is) ty v h e = elim (Bool-cases (t == ty)) [
  | inl hit ↦ subst (λ x. All IsByte x) (some-injective w v (rw hit at e)) (h.0)
  | inr miss ↦ find_item-bytes is ty v h.1 (rw miss at e)
]

get_uint-lt :
    (m : Tlv8Map) (ty width v : ℕ)
    → IsByteMap m
    → get_uint m ty width ≡ ok (some v)
    → v < 256 ^ width
unfolding get_uint get
get_uint-lt m ty width v h e = elim (Option-cases (find_item m.items ty)) [
  | inl missing ↦ cc (rw (missing, get_uint) at e)
  | inr (bytes, found) ↦
      decode_uint-lt width bytes v (find_item-bytes m.items ty bytes h found)
        (rw (found, get_uint) at e)
]

narrow_exact :
    (r : Result Tlv8Error (Option ℕ)) (bits : ℕ)
    → ((v : ℕ) → r ≡ ok (some v) → v < 2 ^ bits)
    → (r >>= λ v. ok (narrow bits v)) ≡ r
narrow_exact (ok none) bits h = refl
narrow_exact (ok (some v)) bits h = ap (λ w. ok (some w)) (mod-eq_of_lt (h v refl))
narrow_exact (err e) bits h = refl
narrow_exact stuck bits h = refl

-- On a map of bytes the casts at the end of `get_u8`, `get_u16` and `get_u32` lose nothing: each
-- getter is `get_uint` at its width.
pub getters-get_uint :
    (m : Tlv8Map) (ty : ℕ)
    → IsByteMap m
    → (get_u8 m ty ≡ get_uint m ty 1)
      × (get_u16 m ty ≡ get_uint m ty 2)
      × (get_u32 m ty ≡ get_uint m ty 4)
      × (get_u64 m ty ≡ get_uint m ty 8)
unfolding get_u8 get_u16 get_u32 get_u64
getters-get_uint m ty h = (
  narrow_exact (get_uint m ty 1) 8 (λ v e. get_uint-lt m ty 1 v h e),
  narrow_exact (get_uint m ty 2) 16 (λ v e. get_uint-lt m ty 2 v h e),
  narrow_exact (get_uint m ty 4) 32 (λ v e. get_uint-lt m ty 4 v h e),
  refl,
)

-- A value that is too long is refused whatever its bytes are, also zero bytes at its end.
pub get_uint_too_large :
    (m : Tlv8Map) (ty width : ℕ) (bytes : List ℕ)
    → get m ty ≡ some bytes
    → width < length bytes
    → get_uint m ty width ≡ err (integer_too_large width (length bytes))
unfolding get_uint decode_uint
get_uint_too_large m ty width bytes e h = rw (e, get_uint) (rw (lt→ltb width (length bytes) h) refl)

find_item-append :
    (is : List Item) (ty : ℕ) (v : List ℕ)
    → find_item is ty ≡ none
    → find_item (is ++ (ty, v) ∷ []) ty ≡ some v
unfolding find_item
find_item-append [] ty v h = rw (==_refl ty) refl
find_item-append ((t, w) ∷ is) ty v h = ground (arith, find_item-append is ty v)

push_all-append :
    (out : List ℕ) (is : List Item) (ty : ℕ) (v : List ℕ)
    → push_all out (is ++ (ty, v) ∷ []) ≡ push (push_all out is) ty v
unfolding push_all
push_all-append out [] ty v = refl
push_all-append out ((t, w) ∷ is) ty v = push_all-append (push out t w) is ty v

-- An integer of `width` bytes written behind any items of other types is found again.
get_uint-push :
    (is : List Item) (ty width v : ℕ)
    → All IsStorable is
    → width ≤ 8
    → v < 256 ^ width
    → find_item is ty ≡ none
    → (Map.parse (push (push_all [] is) ty (to_le_bytes width v)) >>= λ m. get_uint m ty width)
      ≡ ok (some v)
unfolding Map.parse from_items get_uint get
get_uint-push is ty width v fits w h new =
    rw
      (
        ← push_all-append [] is ty (to_le_bytes width v),
        parse-push_all (is ++ (ty, to_le_bytes width v) ∷ []) (
            All-append IsStorable is _ fits ((λ _. omega (arith, length-to_le_bytes width v)), tt)),
        get_uint,
        find_item-append is ty (to_le_bytes width v) new,
        decode_uint_exact width (to_le_bytes width v) (omega (arith, length-to_le_bytes width v)),
        from_le_bytes-to_le_bytes width v h,
      )
      refl

narrow_bind :
    (r : Result Tlv8Error Tlv8Map) (bits ty v width : ℕ)
    → (r >>= λ m. get_uint m ty width) ≡ ok (some v)
    → v < 2 ^ bits
    → (r >>= λ m. get_uint m ty width >>= λ w. ok (narrow bits w)) ≡ ok (some v)
narrow_bind (ok m) bits ty v width e h = rw e (ap (λ w. ok (some w)) (mod-eq_of_lt h))
narrow_bind (err x) bits ty v width e h = e
narrow_bind stuck bits ty v width e h = e

-- Behind any storable items of other types, an integer that `push_u8` to `push_u64` write is what
-- the getter of that width returns from the parsed bytes.
pub getters-push :
    (is : List Item) (ty : ℕ)
    → All IsStorable is
    → find_item is ty ≡ none
    → (a b c d : ℕ) → a < 2 ^ 8
    → b < 2 ^ 16
    → c < 2 ^ 32
    → d < 2 ^ 64
    → ((Map.parse (push_u8 (push_all [] is) ty a) >>= λ m. get_u8 m ty) ≡ ok (some a))
      × ((Map.parse (push_u16 (push_all [] is) ty b) >>= λ m. get_u16 m ty) ≡ ok (some b))
      × ((Map.parse (push_u32 (push_all [] is) ty c) >>= λ m. get_u32 m ty) ≡ ok (some c))
      × ((Map.parse (push_u64 (push_all [] is) ty d) >>= λ m. get_u64 m ty) ≡ ok (some d))
unfolding push_u8 push_u16 push_u32 push_u64 get_u8 get_u16 get_u32 get_u64
getters-push is ty fits new a b c d ha hb hc hd = (
  narrow_bind _ 8 ty a 1 (get_uint-push is ty 1 a fits (omega arith) ha new) ha,
  narrow_bind _ 16 ty b 2 (get_uint-push is ty 2 b fits (omega arith) hb new) hb,
  narrow_bind _ 32 ty c 4 (get_uint-push is ty 4 c fits (omega arith) hc new) hc,
  get_uint-push is ty 8 d fits (omega arith) hd new,
)
