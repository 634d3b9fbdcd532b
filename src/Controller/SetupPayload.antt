-- ===== src/Controller/SetupPayload.antt =====
-- crates/hap-controller/src/setup_payload.rs: the payload that a setup QR code holds. A string is given by
-- its UTF-8 bytes; the shifts and masks are written as quotients and remainders.
pub mod Layout
use hap_rust.Common.{
  ℕ, zero, suc, ◌+◌, ◌-◌, ◌*◌, ◌/◌, ◌%◌, ◌^◌, ◌<◌, ◌≡◌, refl, ap, ◌∙◌, List, [], ◌∷◌, ◌++◌, Option,
  none, some, Result, ok, err, ◌>>=◌, ◌>>◌, ok_or, guard, then_ok, found, Bool, true, false, ◌&&◌,
  not, length, take, drop, take-append, drop-append, replicate, get_elem?, ltb, leb, le→ltb, ◌==◌,
  if◌then◌else◌, arith,
}
use hap_rust.Crypto.PairVerify.{bytes_eq}
use hap_rust.Transport.Text.{from_str_radix, decimal}

-- Of `HapError` the one that is returned here; and the panic of a string that is cut within a character.
pub data PayloadError : Type 0 where
  invalid_setup_payload panicked : PayloadError

pub record SetupFlags : Type 0 where
  pub ip : Bool
  pub ble : Bool
  pub nfc : Bool

pub record SetupPayload : Type 0 where
  pub setup_code : List ℕ
  pub category : ℕ
  pub setup_id : Option (List ℕ)
  pub flags : SetupFlags

-- `X-HM://`
abbrev pub uri_prefix : List ℕ
uri_prefix = 88 ∷ 45 ∷ 72 ∷ 77 ∷ 58 ∷ 47 ∷ 47 ∷ []

unfoldable pub strip_prefix : (front text : List ℕ) → Option (List ℕ)
strip_prefix [] text = some text
strip_prefix (p ∷ ps) [] = none
strip_prefix (p ∷ ps) (b ∷ bs) = let rest = strip_prefix ps bs in if p == b then rest else none

-- A cut at the end, or before a byte that begins a character.
unfoldable pub is_char_boundary : ℕ → List ℕ → Bool
is_char_boundary n text = elim (get_elem? text n) [
  | none ↦ n == length text
  | some b ↦ not (leb 0x80 b && leb b 0xBF)
]

-- `{:08}`
unfoldable pub eight_digits : ℕ → List ℕ
unfolding decimal
eight_digits n = let digits = decimal n in replicate (8 - length digits) 48 ++ digits

abbrev pub some_id : List ℕ → Option (List ℕ)
some_id [] = none
some_id (b ∷ bs) = some (b ∷ bs)

-- The fields of the nine digits' number.
unfoldable pub of_value : (full : ℕ) → (setup_id : List ℕ) → SetupPayload
unfolding eight_digits
of_value full setup_id =
    let value_low = full % 2 ^ 32 in
    let value_high = full / 2 ^ 32 in
    let flags_nibble = value_low / 2 ^ 27 % 16 in
    record {
      setup_code = eight_digits (value_low % 2 ^ 27);
      category = (value_high % 128) * 2 + value_low / 2 ^ 31 % 2;
      setup_id = some_id setup_id;
      flags = record {
        ip = not (flags_nibble / 2 % 2 == 0);
        ble = not (flags_nibble / 4 % 2 == 0);
        nfc = not (flags_nibble / 8 % 2 == 0);
      };
    }

unfoldable pub parse : List ℕ → Result PayloadError SetupPayload
unfolding strip_prefix is_char_boundary from_str_radix of_value
parse uri = do
  rest ← ok_or (strip_prefix uri_prefix uri) invalid_setup_payload
  guard (not (ltb (length rest) 9)) invalid_setup_payload
  guard (is_char_boundary 9 rest) panicked
  full ← ok_or (from_str_radix 36 (2 ^ 64 - 1) (take 9 rest)) invalid_setup_payload
  ok (of_value full (drop 9 rest))
