-- ===== src/Tlv8/Runs.antt =====
-- Concrete runs of the TLV8 codec, from the tests of crates/hap-tlv8, and its theorems at inputs.
use hap_rust.Common.{
  ◌^◌, ◌≡◌, refl, List, [], ◌∷◌, ◌++◌, some, ok, err, ◌>>=◌, replicate, arith, chunks,
}
use hap_rust.Tlv8.Types.{unexpected_eof, Item}
use hap_rust.Tlv8.Reader.{parse}
use hap_rust.Tlv8.Writer.{push, push_u8, push_u16, push_u32, push_u64}
use hap_rust.Tlv8.Map
use hap_rust.Tlv8.Map.{Tlv8Map, get_u8, get_u16, get_u32, get_u64, get_uint, find_item}
use hap_rust.Tlv8.RoundTrip.{push_all, parse-push_all}
use hap_rust.Tlv8.Getters.{getters-push}

parse_truncated : parse (0x01 ∷ 0x02 ∷ 0xAA ∷ []) ≡ err unexpected_eof
unfolding parse
parse_truncated = refl

parse_separates :
    parse (0x09 ∷ 1 ∷ 0xAA ∷ 0x09 ∷ 1 ∷ 0xBB ∷ []) ≡ ok ((9, 0xAA ∷ []) ∷ (9, 0xBB ∷ []) ∷ [])
unfolding parse
parse_separates = refl

-- A separator is not always empty.
parse_long_separator : parse (0xFF ∷ 1 ∷ 7 ∷ []) ≡ ok ((0xFF, 7 ∷ []) ∷ [])
unfolding parse
parse_long_separator = refl

push_full : push [] 9 (replicate 255 0x42) ≡ 9 ∷ 255 ∷ (replicate 255 0x42 ++ 9 ∷ 0 ∷ [])
unfolding push chunks
push_full = refl

abbrev three_items : List Item
three_items = (1, 0xAA ∷ []) ∷ (0xFF, []) ∷ (1, replicate 300 7) ∷ []

parse-push_all_example : parse (push_all [] three_items) ≡ ok three_items
parse-push_all_example = parse-push_all three_items (omega arith)

getters-push_run :
    ((Map.parse (push_u8 (push_all [] three_items) 6 3) >>= λ m. get_u8 m 6) ≡ ok (some 3))
    × ((Map.parse (push_u16 (push_all [] three_items) 6 0x1234) >>= λ m. get_u16 m 6)
        ≡ ok (some 0x1234))
    × ((Map.parse (push_u32 (push_all [] three_items) 6 7) >>= λ m. get_u32 m 6) ≡ ok (some 7))
    × ((Map.parse (push_u64 (push_all [] three_items) 6 (2 ^ 63)) >>= λ m. get_u64 m 6)
        ≡ ok (some (2 ^ 63)))
unfolding find_item
getters-push_run =
    getters-push three_items 6 (omega arith) refl 3 0x1234 7 (2 ^ 63) (omega arith) (omega arith)
      (omega arith) (omega arith)

abbrev one_item : Tlv8Map
one_item = record { items = (6, 2 ∷ 1 ∷ []) ∷ [] }
