-- ===== src/Model/Json/RoundTrip.antt =====
-- A value of its format is read back from its JSON.
use hap_rust.Common.{
  ℕ, ◌-◌, ◌^◌, ◌<◌, ◌≡◌, refl, List, some, ok, Bool, false, ltb, le→ltb, ℤ, All, IsByte, arith,
}
use hap_rust.Model.Format.{
  CharFormat, bool, uint8, uint16, uint32, uint64, int, float, string, tlv8, data_format, CharValue,
  bool_value, int_value, uint_value, float_value, str_value, bytes_value, uint_max,
}
use hap_rust.Model.Json.{
  JsonCrates, JsonLaws, IsI64, value_from_json, to_json, unsigned_from_json, bytes_from_json,
}

module _ (j : JsonCrates) where
  -- A value that belongs to a format; a float is one that JSON can hold.
  pub data Conforms : CharFormat → CharValue j.F → Type 0 where
    of_bool : (b : Bool) → Conforms bool (bool_value b)
    of_uint8 : (n : ℕ) → n < 2 ^ 8 → Conforms uint8 (uint_value n)
    of_uint16 : (n : ℕ) → n < 2 ^ 16 → Conforms uint16 (uint_value n)
    of_uint32 : (n : ℕ) → n < 2 ^ 32 → Conforms uint32 (uint_value n)
    of_uint64 : (n : ℕ) → n < 2 ^ 64 → Conforms uint64 (uint_value n)
    of_int : (z : ℤ) → IsI64 z → Conforms int (int_value z)
    of_float : (f : j.F) (n : j.N) → j.from_f64 f ≡ some n → Conforms float (float_value f)
    of_string : (s : List ℕ) → Conforms string (str_value s)
    of_tlv8 : (b : List ℕ) → All IsByte b → Conforms tlv8 (bytes_value b)
    of_data : (b : List ℕ) → All IsByte b → Conforms data_format (bytes_value b)

module _ (j : JsonCrates) (laws : JsonLaws j) where
  unsigned_lem :
      (f : CharFormat) (max n : ℕ)
      → uint_max f ≡ some max
      → n < 2 ^ 64
      → ltb max n ≡ false
      → unsigned_from_json j f (to_json j (uint_value n)) ≡ ok (uint_value n)
  unfolding unsigned_from_json to_json
  unsigned_lem f max n limit small fits = rw (laws.u64_u64 n small, limit, fits) refl

  -- A value that belongs to a format is read back, under that format, from the JSON that it is written as.
  pub value_from_json-to_json :
      (f : CharFormat) (v : CharValue j.F)
      → Conforms j f v
      → value_from_json j f (to_json j v) ≡ ok v
  unfolding value_from_json to_json bytes_from_json
  value_from_json-to_json f v (of_bool b) = refl
  value_from_json-to_json f v (of_uint8 n h) =
      unsigned_lem uint8 _ n refl (omega arith) (le→ltb n (2 ^ 8 - 1) (omega arith))
  value_from_json-to_json f v (of_uint16 n h) =
      unsigned_lem uint16 _ n refl (omega arith) (le→ltb n (2 ^ 16 - 1) (omega arith))
  value_from_json-to_json f v (of_uint32 n h) =
      unsigned_lem uint32 _ n refl (omega arith) (le→ltb n (2 ^ 32 - 1) (omega arith))
  value_from_json-to_json f v (of_uint64 n h) =
      unsigned_lem uint64 _ n refl (omega arith) (le→ltb n (2 ^ 64 - 1) (omega arith))
  value_from_json-to_json f v (of_int z h) = rw (laws.i64_i64 z h) refl
  value_from_json-to_json f v (of_float x n e) = rw (e, laws.f64_f64 x n e) refl
  value_from_json-to_json f v (of_string s) = refl
  value_from_json-to_json f v (of_tlv8 b h) = rw (laws.decode_encode b h) refl
  value_from_json-to_json f v (of_data b h) = rw (laws.decode_encode b h) refl
