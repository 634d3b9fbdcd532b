-- ===== src/Tlv8/RoundTrip.antt =====
-- What `Tlv8Writer::push` writes, `Tlv8Reader::parse` reads back.
use hap_rust.Common.{
  ℕ, zero, suc, ◌≤◌, ◌<◌, ◌≡◌, ◌≢◌, refl, sym, ap, ◌∙◌, List, [], ◌∷◌, ◌++◌, Bool, true, false, inl,
  inr, Option, none, some, Result, ok, append-nil, append_assoc, length, take, drop, length-append,
  length-take, length-drop, take-append, drop-append, take-append-drop, All, ltb, le→ltb, ltb→lt,
  ltb→le, lt→ltb, ==_iff, Bool-cases, ◌==◌, if◌then◌else◌, arith,
}
use hap_rust.Tlv8.Types.{Tlv8Error, Item, separator}
use hap_rust.Tlv8.Reader.{
  ReadState, extend_last, continues, on_fragment, parse_loop, parse, parse_loop-fuel, empty_state,
}
use hap_rust.Tlv8.Writer.{push}
use hap_rust.Tlv8.Fragments.{pieces_fuel, pieces, encode, push-pieces}

parse_from : List ℕ → ReadState → Result Tlv8Error (List Item)
parse_from bytes s = parse_loop (length bytes) bytes s

parse_loop_step :
    (fuel ty : ℕ) (c rest : List ℕ) (s : ReadState)
    → parse_loop (suc fuel) (ty ∷ length c ∷ (c ++ rest)) s
      ≡ parse_loop fuel rest (on_fragment s ty (length c) c)
unfolding parse_loop
parse_loop_step fuel ty c rest s = rw (
  le→ltb (length c) (length (c ++ rest)) (omega (arith, length-append c rest)),
  take-append (length c) c rest refl,
  drop-append (length c) c rest refl,
)

parse_from_step :
    (ty : ℕ) (c rest : List ℕ) (s : ReadState)
    → parse_from (ty ∷ length c ∷ (c ++ rest)) s ≡ parse_from rest (on_fragment s ty (length c) c)
unfolding parse_from
parse_from_step ty c rest s =
    parse_loop_step (suc (length (c ++ rest))) ty c rest s
    ∙ parse_loop-fuel (suc (length (c ++ rest))) (length rest) rest (on_fragment s ty (length c) c)
        (omega (arith, length-append c rest)) (omega arith)

extend_last-append :
    (is : List Item) (ty : ℕ) (u v : List ℕ)
    → extend_last (is ++ (ty, u) ∷ []) v ≡ is ++ (ty, u ++ v) ∷ []
unfolding extend_last
extend_last-append [] ty u v = refl
extend_last-append (i ∷ []) ty u v = refl
extend_last-append (i ∷ j ∷ is) ty u v = ap (λ t. i ∷ t) (extend_last-append (j ∷ is) ty u v)

-- The state in which the last item is `(ty, u)`.
abbrev behind : List Item → ℕ → List ℕ → Bool → ReadState
behind is ty u full = record { items = is ++ (ty, u) ∷ []; open_run = some (ty, full) }

-- No run is open.
abbrev IsClosed : Option (ℕ × Bool) → Type 0
IsClosed none = Unit {0}
IsClosed (some (ty, full)) = full ≡ false

module _ (ty : ℕ) (plain : ty ≢ 255) where
  not_separator : (ty == separator) ≡ false
  not_separator = ground arith

  first_fragment :
      (s : ReadState) (c : List ℕ)
      → IsClosed s.open_run
      → on_fragment s ty (length c) c ≡ behind s.items ty c (length c == 255)
  unfolding on_fragment continues
  first_fragment s c closed = rw not_separator (ground arith)

  next_fragment :
      (is : List Item) (u c : List ℕ)
      → on_fragment (behind is ty u true) ty (length c) c ≡ behind is ty (u ++ c) (length c == 255)
  unfolding on_fragment continues
  next_fragment is u c = rw (not_separator, extend_last-append) (ground arith)

  short_piece : (v : List ℕ) → length v < 255 → (length v == 255) ≡ false
  short_piece v h = ground arith

  full_piece : (v : List ℕ) → 255 ≤ length v → (length (take 255 v) == 255) ≡ true
  full_piece v h = (==_iff _ _).1 (omega (arith, length-take 255 v))

  last_piece :
      (v rest : List ℕ) (is : List Item) (u : List ℕ)
      → length v < 255
      → parse_from (encode ty (v ∷ []) ++ rest) (behind is ty u true)
        ≡ parse_from rest (behind is ty (u ++ v) false)
  last_piece v rest is u h =
      rw (append-nil v)
        (parse_from_step ty v rest (behind is ty u true) ∙ rw (next_fragment, short_piece v h) refl)

  only_piece :
      (v rest : List ℕ) (s : ReadState)
      → IsClosed s.open_run
      → length v < 255
      → parse_from (encode ty (v ∷ []) ++ rest) s ≡ parse_from rest (behind s.items ty v false)
  only_piece v rest s closed h =
      rw (append-nil v)
        (parse_from_step ty v rest s ∙ rw (first_fragment s v closed, short_piece v h) refl)

  more_fragments :
      (fuel : ℕ) (v rest : List ℕ) (is : List Item) (u : List ℕ)
      → length v ≤ fuel
      → parse_from (encode ty (pieces_fuel fuel v) ++ rest) (behind is ty u true)
        ≡ parse_from rest (behind is ty (u ++ v) false)
  unfolding pieces_fuel
  more_fragments zero v rest is u h = last_piece v rest is u (omega arith)
  more_fragments (suc fuel) v rest is u h = elim (Bool-cases (ltb (length v) 255)) [
    | inl short ↦ rw short (last_piece v rest is u (ltb→lt _ _ short))
    | inr long ↦
        rw
          (
            long,
            append_assoc (take 255 v),
            parse_from_step ty (take 255 v),
            next_fragment,
            full_piece v (ltb→le _ _ long),
          )
          (more_fragments fuel (drop 255 v) rest is (u ++ take 255 v)
              (omega (arith, length-drop 255 v))
            ∙ ap (λ w. parse_from rest (behind is ty w false))
                (append_assoc u (take 255 v) (drop 255 v)
                  ∙ ap (λ w. u ++ w) (take-append-drop 255 v)))
  ]

  first_fragments :
      (fuel : ℕ) (v rest : List ℕ) (s : ReadState)
      → IsClosed s.open_run
      → length v ≤ fuel
      → parse_from (encode ty (pieces_fuel fuel v) ++ rest) s
        ≡ parse_from rest (behind s.items ty v false)
  unfolding pieces_fuel
  first_fragments zero v rest s closed h = only_piece v rest s closed (omega arith)
  first_fragments (suc fuel) v rest s closed h = elim (Bool-cases (ltb (length v) 255)) [
    | inl short ↦ rw short (only_piece v rest s closed (ltb→lt _ _ short))
    | inr long ↦
        rw
          (
            long,
            append_assoc (take 255 v),
            parse_from_step ty (take 255 v),
            first_fragment s (take 255 v) closed,
            full_piece v (ltb→le _ _ long),
          )
          (more_fragments fuel (drop 255 v) rest s.items (take 255 v)
              (omega (arith, length-drop 255 v))
            ∙ ap (λ w. parse_from rest (behind s.items ty w false)) (take-append-drop 255 v))
  ]

-- A separator keeps its value only while that fits one item: it is never put together again.
abbrev pub IsStorable : Item → Type 0
IsStorable (ty, v) = ty ≡ 255 → length v < 255

after_item : Item → ReadState → ReadState
after_item (ty, v) s = record {
  items = s.items ++ (ty, v) ∷ [];
  open_run = if ty == separator then none else some (ty, false);
}

separator_item :
    (v rest : List ℕ) (s : ReadState)
    → length v < 255
    → parse_from (encode 255 (pieces v) ++ rest) s ≡ parse_from rest (after_item (255, v) s)
unfolding pieces_fuel after_item
separator_item [] rest s h = parse_from_step 255 [] rest s ∙ unfold on_fragment in refl
separator_item (b ∷ bs) rest s h =
    rw (lt→ltb (length (b ∷ bs)) 255 h, append-nil)
      (parse_from_step 255 (b ∷ bs) rest s ∙ unfold on_fragment in refl)

read_item :
    (i : Item) (rest : List ℕ) (s : ReadState)
    → IsStorable i
    → IsClosed s.open_run
    → parse_from (encode i.0 (pieces i.1) ++ rest) s ≡ parse_from rest (after_item i s)
unfolding after_item
read_item (ty, v) rest s fits closed = elim (Bool-cases (ty == 255)) [
  | inl e ↦ let sep : ty ≡ 255 = (==_iff ty 255).0 e in rw sep (separator_item v rest s (fits sep))
  | inr e ↦ rw e (first_fragments ty (ground arith) (length v) v rest s closed (omega arith))
]

after_item-IsClosed : (i : Item) (s : ReadState) → IsClosed (after_item i s).open_run
unfolding after_item
after_item-IsClosed (ty, v) s = ground arith

-- The bytes of a list of items, each written by `push`.
unfoldable pub push_all : List ℕ → List Item → List ℕ
push_all out [] = out
push_all out ((ty, v) ∷ is) = push_all (push out ty v) is

encode_all : List Item → List ℕ
encode_all [] = []
encode_all ((ty, v) ∷ is) = encode ty (pieces v) ++ encode_all is

push_all-encode_all : (is : List Item) (out : List ℕ) → push_all out is ≡ out ++ encode_all is
unfolding push_all encode_all
push_all-encode_all [] out = sym (append-nil out)
push_all-encode_all ((ty, v) ∷ is) out =
    push_all-encode_all is (push out ty v) ∙ rw (push-pieces, append_assoc) refl

read_items :
    (is : List Item) (s : ReadState)
    → All IsStorable is
    → IsClosed s.open_run
    → parse_from (encode_all is) s ≡ ok (s.items ++ is)
unfolding encode_all
read_items [] s fits closed = unfold parse_from parse_loop in ap ok (sym (append-nil s.items))
read_items (i ∷ is) s fits closed =
    read_item i (encode_all is) s fits.0 closed
    ∙ read_items is (after_item i s) fits.1 (after_item-IsClosed i s)
    ∙ unfold after_item in ap ok (append_assoc s.items (i ∷ []) is)

-- `parse` reads back every list of items that `push` wrote, values of any length included, as long
-- as an item of the separator's type has fewer than 255 bytes.
pub parse-push_all : (is : List Item) → All IsStorable is → parse (push_all [] is) ≡ ok is
unfolding parse parse_from
parse-push_all is fits = rw (push_all-encode_all is []) (read_items is empty_state fits tt)
