-- ===== src/Ble/Values/RoundTrip.antt =====
-- A value that is written is read back.
use hap_rust.Common.{
  ℕ, suc, ◌-◌, ◌%◌, ◌^◌, ◌<◌, ◌≡◌, refl, ap, sym, ◌∙◌, List, [], ◌++◌, ok, true, false, ltb, ltb→lt,
  when_ok, ok-injective, length, to_le_bytes, from_le_bytes, from_le_bytes-to_le_bytes,
  length-to_le_bytes, guard, le→leb, arith, pos, negsuc, ℤ, take-append, append-nil, length-append,
  le→ltb,
}
use mathlib.Core.Path.{subst}
use hap_rust.Model.Format.{
  CharFormat, bool, uint8, uint16, uint32, uint64, int, float, string, tlv8, data_format, CharValue,
  bool_value, int_value, uint_value, float_value, str_value, bytes_value,
}
use hap_rust.Transport.Text.{from_utf8_lossy}
use hap_rust.Ble.Values.{
  Floats, mismatch, too_short, unsigned, signed, i32_of, encode_value, leading, need, decode_value,
}

-- Raw bytes that begin with a word of so many bytes.
abbrev Reads : (fl : Floats) (width n : ℕ) (raw : List ℕ) → Type 0
Reads fl width n raw = (need fl raw width ≡ ok tt) × (leading fl width raw ≡ n)

word_read :
    (fl : Floats) (width n : ℕ) (rest : List ℕ)
    → n < 256 ^ width
    → Reads fl width n (to_le_bytes width n ++ rest)
word_read fl width n rest h =
    let len = length-to_le_bytes width n in
    (
      ap (λ t. guard t too_short)
          (le→leb width (length (to_le_bytes width n ++ rest))
            (omega (arith, length-append (to_le_bytes width n) rest, len))),
      ap from_le_bytes (take-append width (to_le_bytes width n) rest (sym len))
          ∙ from_le_bytes-to_le_bytes width n h,
    )

unsigned_read :
    (fl : Floats) (width n : ℕ) (rest : List ℕ) {raw : List ℕ}
    → unsigned width n ≡ ok raw
    → Reads fl width n (raw ++ rest)
unsigned_read fl width n rest h =
    let (fits, e) = when_ok (ltb n (256 ^ width)) mismatch (ok (to_le_bytes width n)) h in
    subst (λ r. Reads fl width n (r ++ rest)) (ok-injective _ _ e)
      (word_read fl width n rest (ltb→lt _ _ fits))

-- The word that an `i32` is written as.
abbrev twos_complement : ℤ → ℕ
twos_complement (pos n) = n
twos_complement (negsuc n) = 2 ^ 32 - 1 - n

signed_word :
    (i : ℤ) {raw : List ℕ}
    → signed i ≡ ok raw
    → (twos_complement i < 256 ^ 4)
      × (raw ≡ to_le_bytes 4 (twos_complement i))
      × (i32_of (twos_complement i) ≡ i)
signed_word (pos n) h =
    let (fits, e) = when_ok (ltb n (2 ^ 31)) mismatch (ok (to_le_bytes 4 n)) h in
    let small = ltb→lt _ _ fits in (omega arith, sym (ok-injective _ _ e), rw fits refl)
signed_word (negsuc n) h =
    let (fits, e) = when_ok (ltb n (2 ^ 31)) mismatch (ok (to_le_bytes 4 (2 ^ 32 - 1 - n))) h in
    let small = ltb→lt _ _ fits in
    (
      omega arith,
      sym (ok-injective _ _ e),
      rw (le→ltb (2 ^ 31) (2 ^ 32 - 1 - n) (omega arith)) (ap negsuc (omega arith)),
    )

signed_read :
    (fl : Floats) (i : ℤ) (rest : List ℕ) {raw : List ℕ}
    → signed i ≡ ok raw
    → Reads fl 4 (twos_complement i) (raw ++ rest)
signed_read fl i rest h =
    let (small, e, back) = signed_word i h in
    subst (λ r. Reads fl 4 (twos_complement i) (r ++ rest)) (sym e) (word_read fl 4 _ rest small)

module _ (fl : Floats) where
  -- What a value can be on the machine.
  abbrev pub IsMachine : CharValue fl.F → Type 0
  IsMachine (uint_value n) = n < 2 ^ 64
  IsMachine (float_value f) = fl.narrow_bits f < 2 ^ 32
  IsMachine _ = Unit {0}

  -- A value of these formats has no end of its own.
  abbrev pub MayFollow : CharFormat → List ℕ → Type 0
  MayFollow string rest = rest ≡ []
  MayFollow tlv8 rest = rest ≡ []
  MayFollow data_format rest = rest ≡ []
  MayFollow _ rest = Unit {0}

  -- A float is narrowed on the way, and a string passes the check of its encoding.
  abbrev pub transmitted : CharValue fl.F → CharValue fl.F
  transmitted (float_value f) = float_value (fl.widen_bits (fl.narrow_bits f))
  transmitted (str_value s) = str_value (from_utf8_lossy s)
  transmitted v = v

  -- A value that can be written in a format is read back from its bytes: an integer and a truth
  -- value as they were, also with bytes behind them, a float as narrowed, and a string as its
  -- bytes decode.
  pub decode_value-encode_value :
      (f : CharFormat) (v : CharValue fl.F) (rest : List ℕ) {raw : List ℕ}
      → IsMachine v
      → MayFollow f rest
      → encode_value fl f v ≡ ok raw
      → decode_value fl f (raw ++ rest) ≡ ok (transmitted v)
  unfolding encode_value decode_value to_le_bytes
  decode_value-encode_value bool (bool_value true) rest m r h =
      rw (sym (ok-injective _ _ h), le→leb 1 (suc (length rest)) (omega arith)) refl
  decode_value-encode_value bool (bool_value false) rest m r h =
      rw (sym (ok-injective _ _ h), le→leb 1 (suc (length rest)) (omega arith)) refl
  decode_value-encode_value uint8 (uint_value n) rest m r h =
      let (fits, e) = when_ok (ltb n (256 ^ 1)) mismatch (ok (to_le_bytes 1 n)) h in
      let small : n < 256 = ltb→lt n 256 fits in
      let same : n % 256 ≡ n = omega arith in
      rw (sym (ok-injective _ _ e), le→leb 1 (suc (length rest)) (omega arith))
        (ap (λ k. ok (uint_value k)) same)
  decode_value-encode_value uint16 (uint_value n) rest m r h =
      let (long, e) = unsigned_read fl 2 n rest h in rw (long, e) refl
  decode_value-encode_value uint32 (uint_value n) rest m r h =
      let (long, e) = unsigned_read fl 4 n rest h in rw (long, e) refl
  decode_value-encode_value uint64 (uint_value n) rest m r h =
      let (long, e) = word_read fl 8 n rest m in rw (sym (ok-injective _ _ h), long, e) refl
  decode_value-encode_value int (int_value i) rest m r h =
      let (long, e) = signed_read fl i rest h in rw (long, e, (signed_word i h).2) refl
  decode_value-encode_value float (float_value x) rest m r h =
      let (long, e) = word_read fl 4 (fl.narrow_bits x) rest m in
      rw (sym (ok-injective _ _ h), long, e) refl
  decode_value-encode_value string (str_value s) rest m r h =
      rw (r, append-nil, sym (ok-injective _ _ h)) refl
  decode_value-encode_value tlv8 (bytes_value b) rest m r h =
      rw (r, append-nil, sym (ok-injective _ _ h)) refl
  decode_value-encode_value data_format (bytes_value b) rest m r h =
      rw (r, append-nil, sym (ok-injective _ _ h)) refl
  decode_value-encode_value f v rest m r h = cc
