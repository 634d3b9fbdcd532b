-- ===== src/Tlv8/Reader.antt =====
-- crates/hap-tlv8/src/reader.rs: `Tlv8Reader::parse`. The position `pos` is modelled by the bytes
-- from it on; a slice is far shorter than `usize::MAX`, so `start + len` does not overflow.
use hap_rust.Common.{
  ℕ, zero, suc, ◌≤◌, ◌≡◌, ◌≢◌, refl, List, [], ◌∷◌, ◌++◌, Bool, false, ◌&&◌, Option, none, some,
  Result, ok, err, stuck, length, take, drop, length-drop, ltb, ◌==◌, if◌then◌else◌, arith,
}
use hap_rust.Tlv8.Types.{Tlv8Error, unexpected_eof, Item, separator}

-- The items so far, and the type of the last fragment with whether its run is still open.
pub record ReadState : Type 0 where
  pub items : List Item
  pub open_run : Option (ℕ × Bool)

-- `items.last_mut()` and `last.1.extend_from_slice(value)`
unfoldable pub extend_last : List Item → List ℕ → List Item
extend_last [] value = []
extend_last ((ty, v) ∷ []) value = (ty, v ++ value) ∷ []
extend_last (i ∷ j ∷ is) value = i ∷ extend_last (j ∷ is) value

-- `matches!(open_run, Some((run_ty, true)) if run_ty == ty)`
unfoldable pub continues : Option (ℕ × Bool) → ℕ → Bool
continues none ty = false
continues (some (run_ty, full)) ty = full && run_ty == ty

-- What one item of the stream does to the state; `len` is the length byte of `value`.
unfoldable pub on_fragment : ReadState → ℕ → ℕ → List ℕ → ReadState
unfolding continues
on_fragment s ty len value =
    if ty == separator
    then record { items = s.items ++ (ty, value) ∷ []; open_run = none }
    else record {
      items =
          if continues s.open_run ty
          then extend_last s.items value
          else s.items ++ (ty, value) ∷ [];
      open_run = some (ty, len == 255);
    }

unfoldable pub parse_loop : ℕ → List ℕ → ReadState → Result Tlv8Error (List Item)
parse_loop fuel [] s = ok s.items
parse_loop zero (ty ∷ rest) s = stuck
parse_loop (suc fuel) (ty ∷ []) s = err unexpected_eof
parse_loop (suc fuel) (ty ∷ len ∷ rest) s =
    let next = parse_loop fuel (drop len rest) (on_fragment s ty len (take len rest)) in
    if ltb (length rest) len then err unexpected_eof else next

abbrev pub empty_state : ReadState
empty_state = record { items = []; open_run = none }

-- Each round takes two bytes at least, so `length bytes` rounds are enough.
unfoldable pub parse : List ℕ → Result Tlv8Error (List Item)
unfolding parse_loop on_fragment extend_last
parse bytes = parse_loop (length bytes) bytes empty_state

pub parse_loop-fuel :
    (f g : ℕ) (bytes : List ℕ) (s : ReadState)
    → length bytes ≤ f
    → length bytes ≤ g
    → parse_loop f bytes s ≡ parse_loop g bytes s
unfolding parse_loop
parse_loop-fuel zero zero [] s p q = refl
parse_loop-fuel zero (suc g) [] s p q = refl
parse_loop-fuel (suc f) zero [] s p q = refl
parse_loop-fuel (suc f) (suc g) [] s p q = refl
parse_loop-fuel zero g (ty ∷ rest) s p q = absurd (omega arith)
parse_loop-fuel (suc f) zero (ty ∷ rest) s p q = absurd (omega arith)
parse_loop-fuel (suc f) (suc g) (ty ∷ []) s p q = refl
parse_loop-fuel (suc f) (suc g) (ty ∷ len ∷ rest) s p q = ground (
  arith,
  length-drop len rest,
  parse_loop-fuel f g (drop len rest) (on_fragment s ty len (take len rest)),
)

parse_loop-ne-stuck :
    (f : ℕ) (bytes : List ℕ) (s : ReadState) → length bytes ≤ f → parse_loop f bytes s ≢ stuck
unfolding parse_loop
parse_loop-ne-stuck zero [] s p = λ e. cc
parse_loop-ne-stuck (suc f) [] s p = λ e. cc
parse_loop-ne-stuck zero (ty ∷ rest) s p = absurd (omega arith)
parse_loop-ne-stuck (suc f) (ty ∷ []) s p = λ e. cc
parse_loop-ne-stuck (suc f) (ty ∷ len ∷ rest) s p = ground (
  arith,
  length-drop len rest,
  parse_loop-ne-stuck f (drop len rest) (on_fragment s ty len (take len rest)),
)

-- On every input `parse` ends with items or with an error: the loop never uses up its fuel.
pub parse-ne-stuck : (bytes : List ℕ) → parse bytes ≢ stuck
unfolding parse
parse-ne-stuck bytes = parse_loop-ne-stuck (length bytes) bytes empty_state (omega arith)
