-- ===== src/Controller/SetupPayload/Layout.antt =====
-- Where the number of a setup payload keeps its fields.
use hap_rust.Common.{
  ℕ, ◌+◌, ◌*◌, ◌-◌, ◌/◌, ◌%◌, ◌^◌, ◌<◌, ◌≡◌, ap, List, ◌++◌, some, ok, Bool, true, false, not,
  length, length-append, take-append, drop-append, ltb, le→ltb, ◌==◌, arith,
}
use hap_rust.Transport.Text.{from_str_radix}
use hap_rust.Controller.SetupPayload.{
  SetupFlags, uri_prefix, strip_prefix, is_char_boundary, eight_digits, some_id, of_value, parse,
}

abbrev pub bit : Bool → ℕ
bit false = 0
bit true = 1

-- A payload as the format lays it out: 27 bits of code, a bit that is not read, the three flags, eight bits
-- of category, and a version.
pub record Fields : Type 0 where
  pub code : ℕ
  pub unread : Bool
  pub flags : SetupFlags
  pub category : ℕ
  pub version : ℕ
  pub code_fits : code < 2 ^ 27
  pub category_fits : category < 2 ^ 8

abbrev pub number : Fields → ℕ
number f =
    f.code
    + 2 ^ 27 * (bit f.unread + 2 * bit f.flags.ip + 4 * bit f.flags.ble + 8 * bit f.flags.nfc)
    + 2 ^ 31 * f.category
    + 2 ^ 39 * f.version

is_set : (b : Bool) (n : ℕ) → n ≡ bit b → not (n == 0) ≡ b
is_set true n e = ground (arith, e)
is_set false n e = ground (arith, e)

bit_le : (b : Bool) → bit b < 2
bit_le true = omega arith
bit_le false = omega arith

of_value_lem :
    (f : Fields) (id : List ℕ)
    → of_value (number f) id ≡ record {
      setup_code = eight_digits f.code;
      category = f.category;
      setup_id = some_id id;
      flags = f.flags;
    }
unfolding of_value
of_value_lem f id =
    let n = number f in
    let u = bit_le f.unread in
    let i = bit_le f.flags.ip in
    let b = bit_le f.flags.ble in
    let c = bit_le f.flags.nfc in
    let nibble : n % 2 ^ 32 / 2 ^ 27 % 16
        ≡ bit f.unread + 2 * bit f.flags.ip + 4 * bit f.flags.ble + 8 * bit f.flags.nfc =
      omega (arith, u, i, b, c, f.code_fits, f.category_fits) in
    let code : n % 2 ^ 32 % 2 ^ 27 ≡ f.code =
      omega (arith, u, i, b, c, f.code_fits, f.category_fits) in
    let category : n / 2 ^ 32 % 128 * 2 + n % 2 ^ 32 / 2 ^ 31 % 2 ≡ f.category =
      omega (arith, u, i, b, c, f.code_fits, f.category_fits) in
    let ip =
      is_set f.flags.ip (n % 2 ^ 32 / 2 ^ 27 % 16 / 2 % 2) (omega (arith, nibble, u, i, b, c)) in
    let ble =
      is_set f.flags.ble (n % 2 ^ 32 / 2 ^ 27 % 16 / 4 % 2) (omega (arith, nibble, u, i, b, c)) in
    let nfc =
      is_set f.flags.nfc (n % 2 ^ 32 / 2 ^ 27 % 16 / 8 % 2) (omega (arith, nibble, u, i, b, c)) in
    λ t. record {
      setup_code = eight_digits (code t);
      category = category t;
      setup_id = some_id id;
      flags = record { ip = ip t; ble = ble t; nfc = nfc t };
    }

-- A URI of nine digits, whose number lays out some fields, and an identifier that begins with a character:
-- `parse` returns those fields, with the code in eight digits at least. The bits above the category, which
-- hold a version, change nothing.
pub parse_fields :
    (f : Fields) (digits id : List ℕ)
    → length digits ≡ 9
    → from_str_radix 36 (2 ^ 64 - 1) digits ≡ some (number f)
    → is_char_boundary 9 (digits ++ id) ≡ true
    → parse (uri_prefix ++ (digits ++ id))
      ≡ ok (record {
        setup_code = eight_digits f.code;
        category = f.category;
        setup_id = some_id id;
        flags = f.flags;
      })
unfolding parse strip_prefix
parse_fields f digits id nine value whole =
    let long : ltb (length (digits ++ id)) 9 ≡ false =
      le→ltb 9 (length (digits ++ id)) (omega (arith, length-append digits id, nine)) in
    let front = take-append 9 digits id (omega (arith, nine)) in
    let back = drop-append 9 digits id (omega (arith, nine)) in
    rw (long, whole, front, back, value) (ap ok (of_value_lem f id))
