-- ===== src/Ble/Values.antt =====
-- crates/hap-ble/src/db.rs: characteristic values as bytes. The casts between the machine's floats are
-- a parameter.
pub mod RoundTrip
use hap_rust.Common.{
  ℕ, ◌-◌, ◌^◌, List, [], ◌∷◌, Result, ok, err, guard, ◌>>◌, Bool, true, false, not, ltb, leb, ◌==◌,
  if◌then◌else◌, length, take, get_or, to_le_bytes, from_le_bytes, ℤ, pos, negsuc,
}
use hap_rust.Model.Format.{
  CharFormat, bool, uint8, uint16, uint32, uint64, int, float, string, tlv8, data_format, CharValue,
  bool_value, int_value, uint_value, float_value, str_value, bytes_value,
}
use hap_rust.Transport.Text.{from_utf8_lossy}
use hap_rust.Ble.Types.{BleError, malformed_pdu}

-- `(f as f32).to_bits()`, and `f64::from(f32::from_bits(bits))`.
pub record Floats : Type 1 where
  pub F : Type 0
  pub narrow_bits : F → ℕ
  pub widen_bits : ℕ → F

abbrev pub mismatch : BleError
mismatch = malformed_pdu "value does not match characteristic format"

abbrev pub too_short : BleError
too_short = malformed_pdu "value shorter than its format width"

-- `uN::try_from(n)`, and its little-endian bytes.
abbrev pub unsigned : (width n : ℕ) → Result BleError (List ℕ)
unsigned width n = if ltb n (256 ^ width) then ok (to_le_bytes width n) else err mismatch

-- `i32::try_from(n)`, and its little-endian bytes in two's complement.
abbrev pub signed : ℤ → Result BleError (List ℕ)
signed (pos n) = if ltb n (2 ^ 31) then ok (to_le_bytes 4 n) else err mismatch
signed (negsuc n) = if ltb n (2 ^ 31) then ok (to_le_bytes 4 (2 ^ 32 - 1 - n)) else err mismatch

-- `i64::from(i32::from_le_bytes(..))`
abbrev pub i32_of : ℕ → ℤ
i32_of n = if ltb n (2 ^ 31) then pos n else negsuc (2 ^ 32 - 1 - n)

abbrev pub byte_of : Bool → ℕ
byte_of true = 1
byte_of false = 0

module _ (fl : Floats) where
  unfoldable pub encode_value : CharFormat → CharValue fl.F → Result BleError (List ℕ)
  encode_value bool (bool_value b) = ok (byte_of b ∷ [])
  encode_value uint8 (uint_value n) = unsigned 1 n
  encode_value uint16 (uint_value n) = unsigned 2 n
  encode_value uint32 (uint_value n) = unsigned 4 n
  encode_value uint64 (uint_value n) = ok (to_le_bytes 8 n)
  encode_value int (int_value n) = signed n
  encode_value float (float_value f) = ok (to_le_bytes 4 (fl.narrow_bits f))
  encode_value string (str_value s) = ok s
  encode_value tlv8 (bytes_value b) = ok b
  encode_value data_format (bytes_value b) = ok b
  encode_value _ _ = err mismatch

  abbrev pub need : List ℕ → ℕ → Result BleError (Unit {0})
  need raw n = guard (leb n (length raw)) too_short

  -- The number in the first bytes.
  abbrev pub leading : ℕ → List ℕ → ℕ
  leading n raw = from_le_bytes (take n raw)

  unfoldable pub decode_value : CharFormat → List ℕ → Result BleError (CharValue fl.F)
  decode_value bool raw = do need raw 1; ok (bool_value (not (get_or raw 0 0 == 0)))
  decode_value uint8 raw = do need raw 1; ok (uint_value (get_or raw 0 0))
  decode_value uint16 raw = do need raw 2; ok (uint_value (leading 2 raw))
  decode_value uint32 raw = do need raw 4; ok (uint_value (leading 4 raw))
  decode_value uint64 raw = do need raw 8; ok (uint_value (leading 8 raw))
  decode_value int raw = do need raw 4; ok (int_value (i32_of (leading 4 raw)))
  decode_value float raw = do need raw 4; ok (float_value (fl.widen_bits (leading 4 raw)))
  decode_value string raw = ok (str_value (from_utf8_lossy raw))
  decode_value _ raw = ok (bytes_value raw)
