-- ===== src/Model/Json/Runs.antt =====
-- A concrete JSON library, on which the laws hold, and values in it. Its base64 is the identity.
use hap_rust.Common.{ℕ, ◌≡◌, refl, Option, none, some, ok, ℤ, pos, negsuc, arith}
use hap_rust.Model.Format.{int, int_value}
use hap_rust.Model.Json.{JsonCrates, JsonLaws, value_from_json, to_json}
use hap_rust.Model.Json.RoundTrip.{value_from_json-to_json, of_int}

pub data Num : Type 0 where
  natural floating : ℕ → Num
  negative : ℕ → Num

abbrev number_u64 : Num → Option ℕ
number_u64 (natural n) = some n
number_u64 _ = none

abbrev number_i64 : Num → Option ℤ
number_i64 (natural n) = some (pos n)
number_i64 (negative n) = some (negsuc n)
number_i64 (floating f) = none

abbrev number_f64 : Num → Option ℕ
number_f64 (natural n) = some n
number_f64 (negative n) = some n
number_f64 (floating f) = some f

abbrev of_i64 : ℤ → Num
of_i64 (pos n) = natural n
of_i64 (negsuc n) = negative n

abbrev size : ℤ → ℕ
size (pos n) = n
size (negsuc n) = n

abbrev pub crates : JsonCrates
crates = record {
  N = Num;
  F = ℕ;
  as_u64 = number_u64;
  as_i64 = number_i64;
  as_f64 = number_f64;
  from_u64 = natural;
  from_i64 = of_i64;
  from_f64 = λ f. some (floating f);
  as_float = size;
  show_value = λ v. "value";
  digits = λ n. "number";
  encode = λ b. b;
  decode = ok;
}

i64_back : (z : ℤ) → number_i64 (of_i64 z) ≡ some z
i64_back (pos n) = refl
i64_back (negsuc n) = refl

floats : (f : ℕ) (n : Num) → ◌≡◌ {A = Option Num} (some (floating f)) (some n) → floating f ≡ n
floats f n e = cc

pub crates_laws : JsonLaws crates
crates_laws = record {
  u64_u64 = λ n h. refl;
  u64_pos = λ n h. refl;
  u64_negsuc = λ n h. refl;
  i64_i64 = λ z h. i64_back z;
  u64_f64 = λ f n e. rw (← floats f n e) refl;
  i64_f64 = λ f n e. rw (← floats f n e) refl;
  f64_f64 = λ f n e. rw (← floats f n e) refl;
  decode_encode = λ b h. refl;
}

value_from_json-to_json_run :
    value_from_json crates int (to_json crates (int_value (negsuc 6))) ≡ ok (int_value (negsuc 6))
value_from_json-to_json_run =
    value_from_json-to_json crates crates_laws int (int_value (negsuc 6))
      (of_int (negsuc 6) (omega arith))
