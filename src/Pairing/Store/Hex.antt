-- ===== src/Pairing/Store/Hex.antt =====
-- Keys and device ids come back from their texts.
use hap_rust.Common.{
  ℕ, ◌+◌, ◌*◌, ◌/◌, ◌%◌, ◌<◌, ◌≡◌, ◌≢◌, refl, sym, ap, ◌∙◌, List, [], ◌∷◌, ◌++◌, some, ok, length,
  All, IsByte, arith,
}
use hap_rust.Transport.Text.{from_str_radix}
use hap_rust.Pairing.Store.{
  lower_hex, two_digits, encode_hex, hex_digit, decode_pairs, decode_key_32, join_colon,
  each_two_digits, format_device_id, split_colon, fill_slots, parse_device_id,
}

hex_digit-lower_hex : (n : ℕ) → n < 16 → hex_digit (lower_hex n) ≡ ok n
unfolding hex_digit
hex_digit-lower_hex n h = ground arith

length-encode_hex : (bs : List ℕ) → length (encode_hex bs) ≡ 2 * length bs
unfolding encode_hex
length-encode_hex [] = refl
length-encode_hex (b ∷ bs) = omega (arith, length-encode_hex bs)

decode_pairs-encode_hex : (bs : List ℕ) → All IsByte bs → decode_pairs (encode_hex bs) ≡ ok bs
unfolding decode_pairs encode_hex
decode_pairs-encode_hex [] h = refl
decode_pairs-encode_hex (b ∷ bs) h =
    let whole : b / 16 * 16 + b % 16 ≡ b = omega arith in
    rw
      (
        hex_digit-lower_hex (b / 16) (omega (arith, h.0)),
        hex_digit-lower_hex (b % 16) (omega arith),
        decode_pairs-encode_hex bs h.1,
      )
      (ap (λ x. ok (x ∷ bs)) whole)

pub decode_key_32-encode_hex :
    (key : List ℕ) → length key ≡ 32 → All IsByte key → decode_key_32 (encode_hex key) ≡ ok key
unfolding decode_key_32
decode_key_32-encode_hex key h bytes =
    let len : length (encode_hex key) ≡ 64 = omega (arith, length-encode_hex key, h) in
    rw len (decode_pairs-encode_hex key bytes)

from_str_radix-two_digits : (b : ℕ) → b < 256 → from_str_radix 16 255 (two_digits b) ≡ some b
unfolding from_str_radix
from_str_radix-two_digits b h = ground arith

split_colon-append :
    (p rest : List ℕ)
    → All (λ b. b ≢ b':') p
    → split_colon (p ++ b':' ∷ rest) ≡ p ∷ split_colon rest
unfolding split_colon
split_colon-append [] rest h = refl
split_colon-append (b ∷ p) rest h = ground (arith, h.0, split_colon-append p rest h.1)

split_colon_plain : (p : List ℕ) → All (λ b. b ≢ b':') p → split_colon p ≡ p ∷ []
unfolding split_colon
split_colon_plain [] h = refl
split_colon_plain (b ∷ p) h = ground (arith, h.0, split_colon_plain p h.1)

lower_hex_plain : (n : ℕ) → n < 16 → lower_hex n ≢ b':'
lower_hex_plain n h = ground arith

two_digits_plain : (b : ℕ) → b < 256 → All (λ c. c ≢ b':') (two_digits b)
two_digits_plain b h =
    (lower_hex_plain (b / 16) (omega (arith, h)), (lower_hex_plain (b % 16) (omega arith), tt))

split_colon-join_colon :
    (b : ℕ) (bs : List ℕ)
    → IsByte b
    → All IsByte bs
    → split_colon (join_colon (each_two_digits (b ∷ bs))) ≡ each_two_digits (b ∷ bs)
unfolding join_colon
split_colon-join_colon b [] h k = split_colon_plain (two_digits b) (two_digits_plain b h)
split_colon-join_colon b (c ∷ bs) h k =
    split_colon-append (two_digits b) (join_colon (each_two_digits (c ∷ bs))) (two_digits_plain b h)
    ∙ ap (λ t. two_digits b ∷ t) (split_colon-join_colon c bs k.0 k.1)

fill_slots-each_two_digits :
    (bs : List ℕ) → All IsByte bs → fill_slots (length bs) (each_two_digits bs) ≡ some bs
unfolding fill_slots
fill_slots-each_two_digits [] h = refl
fill_slots-each_two_digits (b ∷ bs) h =
    rw (from_str_radix-two_digits b h.0, fill_slots-each_two_digits bs h.1) refl

-- A device id of six bytes is parsed back from its text.
pub parse_device_id-format_device_id :
    (id : List ℕ) → length id ≡ 6 → All IsByte id → parse_device_id (format_device_id id) ≡ some id
unfolding parse_device_id format_device_id
parse_device_id-format_device_id [] six h = absurd (omega (arith, six))
parse_device_id-format_device_id (b ∷ bs) six h =
    ap (fill_slots 6) (split_colon-join_colon b bs h.0 h.1)
    ∙ ap (λ n. fill_slots n (each_two_digits (b ∷ bs))) (sym six)
    ∙ fill_slots-each_two_digits (b ∷ bs) h
