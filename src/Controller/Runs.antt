-- ===== src/Controller/Runs.antt =====
-- Concrete runs of the controller's parts.
use hap_rust.Common.{
  ℕ, ◌≡◌, refl, List, [], ◌∷◌, ◌++◌, some, Result, ok, err, true, false, ◌==◌, if◌then◌else◌, arith,
}
use hap_rust.Transport.Text.{from_str_radix, decimal}
use hap_rust.Controller.Types.{HapError, http}
use hap_rust.Controller.SetupPayload.{
  parse, uri_prefix, strip_prefix, is_char_boundary, eight_digits, panicked,
}
use hap_rust.Controller.SetupPayload.Layout.{Fields, parse_fields}
use hap_rust.Controller.Reconnect.{SessionResponse, backoff}

-- Code 11122333, category 5, IP pairing, and a version that is not 0.
abbrev fields : Fields
fields = record {
  code = 11122333;
  unread = false;
  flags = record { ip = true; ble = false; nfc = false };
  category = 5;
  version = 1;
  code_fits = omega arith;
  category_fits = omega arith;
}

-- `075M5N1Y5`
abbrev digits : List ℕ
digits = 48 ∷ 55 ∷ 53 ∷ 77 ∷ 53 ∷ 78 ∷ 49 ∷ 89 ∷ 53 ∷ []

abbrev id : List ℕ
id = 55 ∷ 79 ∷ 83 ∷ 88 ∷ []

parse_fields_example :
    parse (uri_prefix ++ (digits ++ id))
    ≡ ok (record {
      setup_code = eight_digits 11122333;
      category = 5;
      setup_id = some id;
      flags = record { ip = true; ble = false; nfc = false };
    })
unfolding from_str_radix is_char_boundary
parse_fields_example = parse_fields fields digits id refl refl refl

eight_digits_run : eight_digits 1234 ≡ 48 ∷ 48 ∷ 48 ∷ 48 ∷ 49 ∷ 50 ∷ 51 ∷ 52 ∷ []
unfolding eight_digits decimal
eight_digits_run = refl

-- A character of two bytes across the cut: `12345678` and U+00E9.
cut_character_run :
    parse (uri_prefix ++ (49 ∷ 50 ∷ 51 ∷ 52 ∷ 53 ∷ 54 ∷ 55 ∷ 56 ∷ 195 ∷ 169 ∷ [])) ≡ err panicked
unfolding parse strip_prefix is_char_boundary
cut_character_run = refl

abbrev answer : SessionResponse
answer = record { status = 204; body = [] }

abbrev answers : ℕ → Result HapError SessionResponse
answers n = if n == 2 then ok answer else err (http 500)

backoff_run :
    backoff 1 ∷ backoff 2 ∷ backoff 5 ∷ backoff 6 ∷ backoff 99 ∷ [] ≡ 1 ∷ 2 ∷ 16 ∷ 30 ∷ 30 ∷ []
unfolding backoff
backoff_run = refl
