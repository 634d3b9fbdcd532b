-- ===== src/Controller/Supervisor/Events.antt =====
-- What the events of the handle carry.
use hap_rust.Common.{
  ℕ, ◌^◌, ◌<◌, ◌≡◌, refl, List, [], ◌∷◌, ◌++◌, none, some, ok, Bool, true, false, lt→ltb, ℤ, pos,
  negsuc, map, All,
}
use hap_rust.Model.Format.{
  CharFormat, bool, uint8, uint16, uint32, uint64, int, float, string, CharValue, bool_value,
  int_value, uint_value, float_value, str_value,
}
use hap_rust.Model.Json.{
  JsonCrates, Value, bool_json, number, string_json, infer_value, WireReadEntry, read_entries,
}
use hap_rust.Controller.Supervisor.{
  FormatMap, declared, coerce_to_format, int_or_uint, Pump, CharacteristicEvent, event_of, on_body,
}

module _ (j : JsonCrates) where
  -- The ways in which an accessory can write a value of a format. A truth value is also written as 0 or 1,
  -- and a float that is whole also as an integer.
  pub data Written : CharFormat → CharValue j.F → Value j.N → Type 0 where
    of_bool : (b : Bool) → Written bool (bool_value b) (bool_json b)
    of_zero : (n : j.N) → j.as_u64 n ≡ some 0 → Written bool (bool_value false) (number n)
    of_one : (n : j.N) → j.as_u64 n ≡ some 1 → Written bool (bool_value true) (number n)
    of_uint8 : (n : j.N) (u : ℕ) → j.as_u64 n ≡ some u → Written uint8 (uint_value u) (number n)
    of_uint16 : (n : j.N) (u : ℕ) → j.as_u64 n ≡ some u → Written uint16 (uint_value u) (number n)
    of_uint32 : (n : j.N) (u : ℕ) → j.as_u64 n ≡ some u → Written uint32 (uint_value u) (number n)
    of_uint64 : (n : j.N) (u : ℕ) → j.as_u64 n ≡ some u → Written uint64 (uint_value u) (number n)
    of_natural :
        (n : j.N) (u : ℕ)
        → j.as_u64 n ≡ some u
        → u < 2 ^ 63
        → Written int (int_value (pos u)) (number n)
    of_negative :
        (n : j.N) (u : ℕ)
        → j.as_u64 n ≡ none
        → j.as_i64 n ≡ some (negsuc u)
        → Written int (int_value (negsuc u)) (number n)
    of_float :
        (n : j.N) (f : j.F)
        → j.as_u64 n ≡ none
        → j.as_i64 n ≡ none
        → j.as_f64 n ≡ some f
        → Written float (float_value f) (number n)
    of_whole :
        (n : j.N) (u : ℕ)
        → j.as_u64 n ≡ some u
        → Written float (float_value (j.as_float (pos u))) (number n)
    of_negative_whole :
        (n : j.N) (z : ℤ)
        → j.as_u64 n ≡ none
        → j.as_i64 n ≡ some z
        → Written float (float_value (j.as_float z)) (number n)
    of_string : (s : List ℕ) → Written string (str_value s) (string_json s)

  -- A report of an accessory: the ids, the value that it means, and the JSON that it writes for it.
  abbrev pub Report : Type 0
  Report = (ℕ × ℕ) × CharValue j.F × Value j.N

  -- Its entry in the body of an event, which has no format.
  abbrev pub entry : Report → WireReadEntry j
  entry ((a, i), v, raw) = record {
    aid = a;
    iid = i;
    value = some raw;
    status = none;
    format = none;
  }

  abbrev pub plain_event : Report → CharacteristicEvent j.F
  plain_event ((a, i), v, raw) = record { aid = a; iid = i; value = v }

  -- The value is of the format that its characteristic declares, and is written as such a value can be.
  abbrev pub Declared : FormatMap → Report → Type 0
  Declared fs (id, v, raw) = (f : CharFormat) × (declared fs id ≡ some f) × Written f v raw

  -- A value is inferred from the JSON, and is turned into the value that was meant.
  infer_value-Written :
      (f : CharFormat) (v : CharValue j.F) (raw : Value j.N)
      → Written f v raw
      → (w : CharValue j.F) × (infer_value j raw ≡ ok w) × (coerce_to_format j.as_float w f ≡ v)
  unfolding infer_value coerce_to_format int_or_uint
  infer_value-Written f v raw (of_bool b) = (bool_value b, refl, refl)
  infer_value-Written f v raw (of_zero n e) = (uint_value 0, rw e refl, refl)
  infer_value-Written f v raw (of_one n e) = (uint_value 1, rw e refl, refl)
  infer_value-Written f v raw (of_uint8 n u e) = (uint_value u, rw e refl, refl)
  infer_value-Written f v raw (of_uint16 n u e) = (uint_value u, rw e refl, refl)
  infer_value-Written f v raw (of_uint32 n u e) = (uint_value u, rw e refl, refl)
  infer_value-Written f v raw (of_uint64 n u e) = (uint_value u, rw e refl, refl)
  infer_value-Written f v raw (of_natural n u e h) =
      (uint_value u, rw e refl, rw (lt→ltb u (2 ^ 63) h) refl)
  infer_value-Written f v raw (of_negative n u e i) = (int_value (negsuc u), rw (e, i) refl, refl)
  infer_value-Written f v raw (of_float n x e i r) = (float_value x, rw (e, i, r) refl, refl)
  infer_value-Written f v raw (of_whole n u e) = (uint_value u, rw e refl, refl)
  infer_value-Written f v raw (of_negative_whole n z e i) = (int_value z, rw (e, i) refl, refl)
  infer_value-Written f v raw (of_string s) = (str_value s, refl, refl)

  module _ (fs : FormatMap) where
    -- The values that are read of the reports, and the events of these.
    read_entries-entry :
        (rs : List Report)
        → All (Declared fs) rs
        → (ws : List ((ℕ × ℕ) × CharValue j.F)) × (read_entries j (map entry rs) ≡ ok ws)
          × (map (event_of j.as_float fs) ws ≡ map plain_event rs)
    unfolding read_entries
    read_entries-entry [] h = ([], refl, refl)
    read_entries-entry (((a, i), v, raw) ∷ rs) ((f, e, written), h) =
        let (w, inferred, meant) = infer_value-Written f v raw written in
        let (ws, later, events) = read_entries-entry rs h in
        (((a, i), w) ∷ ws, rw (inferred, later) refl, rw (e, meant, events) refl)

  -- The values that an accessory means by the body of an event, which carries no formats, are sent on in
  -- their order, where the format of each is one of a number, a truth value or a string that has been learnt,
  -- and it is written as such a value can be: a truth value also as 0 or 1, a whole float also as an integer.
  pub on_body-read_entries :
      (p : Pump j.F) (rs : List Report)
      → All (Declared p.formats) rs
      → (on_body j.as_float (read_entries j (map entry rs)) p).sent ≡ p.sent ++ map plain_event rs
  unfolding on_body
  on_body-read_entries p rs h =
      let (ws, read, events) = read_entries-entry p.formats rs h in rw (read, events) refl
