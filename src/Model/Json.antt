-- ===== src/Model/Json.antt =====
-- crates/hap-model/src/format.rs and characteristics.rs: values in JSON. The numbers and the printing of
-- serde_json, base64 and the derived reader of a response are parameters.
pub mod RoundTrip
pub mod Runs
use Prim.Native.String.{String, ◌++◌}
use hap_rust.Common.{
  ℕ, ◌-◌, ◌^◌, ◌<◌, ◌≡◌, List, [], ◌∷◌, Option, none, some, Result, ok, err, stuck, ◌>>=◌, ok_or,
  map_err, Bool, true, false, ltb, ◌==◌, if◌then◌else◌, ℤ, pos, negsuc, All, IsByte,
}
use hap_rust.Model.Types.{ModelError, value_type, value_range, base64, characteristic_status, json}
use hap_rust.Model.Format.{
  CharFormat, bool, uint8, uint16, uint32, uint64, int, float, string, tlv8, data_format, CharValue,
  bool_value, int_value, uint_value, float_value, str_value, bytes_value, uint_max,
}

-- `serde_json::Value`, with its kind of number and with arrays and objects that are not looked into.
pub data Value (N : Type 0) : Type 0 where
  null other_value : Value N
  bool_json : Bool → Value N
  number : N → Value N
  string_json : List ℕ → Value N

-- What is used of `serde_json` and of `base64`; `as_float` is the conversion `n as f64`, and `digits` the
-- text of a number.
pub record JsonCrates : Type 1 where
  pub N : Type 0
  pub F : Type 0
  pub as_u64 : N → Option ℕ
  pub as_i64 : N → Option ℤ
  pub as_f64 : N → Option F
  pub from_u64 : ℕ → N
  pub from_i64 : ℤ → N
  pub from_f64 : F → Option N
  pub as_float : ℤ → F
  pub show_value : Value N → String
  pub digits : ℕ → String
  pub encode : List ℕ → List ℕ
  pub decode : List ℕ → Result String (List ℕ)

abbrev pub as_str : CharFormat → String
as_str bool = "bool"
as_str uint8 = "uint8"
as_str uint16 = "uint16"
as_str uint32 = "uint32"
as_str uint64 = "uint64"
as_str int = "int"
as_str float = "float"
as_str string = "string"
as_str tlv8 = "tlv8"
as_str data_format = "data"

module _ (j : JsonCrates) where
  abbrev pub type_err : CharFormat → Value j.N → ModelError
  type_err f v = value_type (as_str f) ("got JSON " ++ j.show_value v)

  abbrev pub value_as : {A : Type 0} → (j.N → Option A) → Value j.N → Option A
  value_as read (number n) = read n
  value_as read other = none

  -- A number stands for a truth value if it is 0 or 1.
  abbrev pub truth : Option ℕ → ModelError → Result ModelError (CharValue j.F)
  truth none e = err e
  truth (some n) e =
      if n == 0 then ok (bool_value false) else if n == 1 then ok (bool_value true) else err e

  abbrev pub up_to : Option ℕ → CharFormat → ℕ → Result ModelError (CharValue j.F)
  up_to none f n = ok (uint_value n)
  up_to (some max) f n =
      if ltb max n then err (value_range (as_str f) (j.digits n)) else ok (uint_value n)

  unfoldable pub unsigned_from_json : CharFormat → Value j.N → Result ModelError (CharValue j.F)
  unsigned_from_json f v = ok_or (value_as j.as_u64 v) (type_err f v) >>= up_to (uint_max f) f

  unfoldable pub bytes_from_json : CharFormat → Value j.N → Result ModelError (CharValue j.F)
  bytes_from_json f (string_json s) = map_err base64 (j.decode s) >>= λ b. ok (bytes_value b)
  bytes_from_json f v = err (type_err f v)

  unfoldable pub value_from_json : CharFormat → Value j.N → Result ModelError (CharValue j.F)
  unfolding unsigned_from_json bytes_from_json
  value_from_json bool (bool_json b) = ok (bool_value b)
  value_from_json bool (number n) = truth (j.as_u64 n) (type_err bool (number n))
  value_from_json bool v = err (type_err bool v)
  value_from_json uint8 v = unsigned_from_json uint8 v
  value_from_json uint16 v = unsigned_from_json uint16 v
  value_from_json uint32 v = unsigned_from_json uint32 v
  value_from_json uint64 v = unsigned_from_json uint64 v
  value_from_json int v = ok_or (value_as j.as_i64 v) (type_err int v) >>= λ n. ok (int_value n)
  value_from_json float v =
      ok_or (value_as j.as_f64 v) (type_err float v) >>= λ f. ok (float_value f)
  value_from_json string (string_json s) = ok (str_value s)
  value_from_json string v = err (type_err string v)
  value_from_json tlv8 v = bytes_from_json tlv8 v
  value_from_json data_format v = bytes_from_json data_format v

  abbrev pub number_or_null : Option j.N → Value j.N
  number_or_null none = null
  number_or_null (some n) = number n

  unfoldable pub to_json : CharValue j.F → Value j.N
  to_json (bool_value b) = bool_json b
  to_json (int_value n) = number (j.from_i64 n)
  to_json (uint_value n) = number (j.from_u64 n)
  to_json (float_value f) = number_or_null (j.from_f64 f)
  to_json (str_value s) = string_json s
  to_json (bytes_value b) = string_json (j.encode b)

  -- The first reading of a number that succeeds.
  abbrev pub infer_number :
      Option ℕ → Option ℤ → Option j.F → ModelError → Result ModelError (CharValue j.F)
  infer_number (some u) i f e = ok (uint_value u)
  infer_number none (some i) f e = ok (int_value i)
  infer_number none none (some f) e = ok (float_value f)
  infer_number none none none e = err e

  unfoldable pub infer_value : Value j.N → Result ModelError (CharValue j.F)
  infer_value (bool_json b) = ok (bool_value b)
  infer_value (string_json s) = ok (str_value s)
  infer_value (number n) =
      infer_number (j.as_u64 n) (j.as_i64 n) (j.as_f64 n)
        (value_type "unknown" ("uninterpretable number " ++ j.show_value (number n)))
  infer_value v = err (value_type "unknown" ("got JSON " ++ j.show_value v))

  pub record WireReadEntry : Type 0 where
    pub aid : ℕ
    pub iid : ℕ
    pub value : Option (Value j.N)
    pub status : Option ℤ
    pub format : Option CharFormat

  abbrev pub nonzero_status : Option ℤ → Option ℤ
  nonzero_status none = none
  nonzero_status (some (pos n)) = if n == 0 then none else some (pos n)
  nonzero_status (some (negsuc n)) = some (negsuc n)

  abbrev pub decode_entry : Option CharFormat → Value j.N → Result ModelError (CharValue j.F)
  decode_entry (some f) v = value_from_json f v
  decode_entry none v = infer_value v

  -- The value of an entry of status 0, put before the values of the later entries.
  abbrev pub read_value :
      WireReadEntry
      → Option (Value j.N)
      → Result ModelError (List ((ℕ × ℕ) × CharValue j.F))
      → Result ModelError (List ((ℕ × ℕ) × CharValue j.F))
  read_value e none later = later
  read_value e (some raw) later =
      decode_entry e.format raw >>= λ v. later >>= λ vs. ok (((e.aid, e.iid), v) ∷ vs)

  abbrev pub read_entry :
      WireReadEntry
      → Option ℤ
      → Result ModelError (List ((ℕ × ℕ) × CharValue j.F))
      → Result ModelError (List ((ℕ × ℕ) × CharValue j.F))
  read_entry e (some s) later = err (characteristic_status e.aid e.iid s)
  read_entry e none later = read_value e e.value later

  unfoldable pub read_entries :
      List WireReadEntry → Result ModelError (List ((ℕ × ℕ) × CharValue j.F))
  read_entries [] = ok []
  read_entries (e ∷ es) = read_entry e (nonzero_status e.status) (read_entries es)

  -- `from_slice` is the reader that `serde_json` derives for the response.
  module _ (from_slice : List ℕ → Result String (List WireReadEntry)) where
    unfoldable pub parse_read_response : List ℕ → Result ModelError (List ((ℕ × ℕ) × CharValue j.F))
    unfolding read_entries
    parse_read_response body = map_err json (from_slice body) >>= read_entries

abbrev pub IsI64 : ℤ → Type 0
IsI64 (pos n) = n < 2 ^ 63
IsI64 (negsuc n) = n < 2 ^ 63

-- What is documented of the numbers and of base64: a number is read back as what it was made of, where it
-- fits, and one that is made of a float is no integer.
pub record JsonLaws (j : JsonCrates) : Type 0 where
  pub u64_u64 : (n : ℕ) → n < 2 ^ 64 → j.as_u64 (j.from_u64 n) ≡ some n
  pub u64_pos : (n : ℕ) → n < 2 ^ 63 → j.as_u64 (j.from_i64 (pos n)) ≡ some n
  pub u64_negsuc : (n : ℕ) → n < 2 ^ 63 → j.as_u64 (j.from_i64 (negsuc n)) ≡ none
  pub i64_i64 : (z : ℤ) → IsI64 z → j.as_i64 (j.from_i64 z) ≡ some z
  pub u64_f64 : (f : j.F) (n : j.N) → j.from_f64 f ≡ some n → j.as_u64 n ≡ none
  pub i64_f64 : (f : j.F) (n : j.N) → j.from_f64 f ≡ some n → j.as_i64 n ≡ none
  pub f64_f64 : (f : j.F) (n : j.N) → j.from_f64 f ≡ some n → j.as_f64 n ≡ some f
  pub decode_encode : (b : List ℕ) → All IsByte b → j.decode (j.encode b) ≡ ok b
