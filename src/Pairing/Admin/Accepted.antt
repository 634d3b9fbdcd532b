-- ===== src/Pairing/Admin/Accepted.antt =====
-- What a listing that the controller accepts looks like, whatever the accessory sent.
use hap_rust.Common.{
  ℕ, ◌≡◌, refl, List, [], ◌∷◌, ◌++◌, Option, none, some, ok, ◌>>◌, both_steps, guard, guard-eq-ok,
  ok-injective, map_err, Bool, true, length, All, All-append, is_utf8, ==_iff, ◌==◌, Bool-cases,
  inl, inr,
}
use mathlib.Core.Path.{subst}
use hap_rust.Tlv8.Types.{Item, separator}
use hap_rust.Tlv8.Reader
use hap_rust.Pairing.Types.{PairingError, tlv8, tlv_identifier, tlv_public_key, tlv_permissions}
use hap_rust.Pairing.Admin.{
  PairingInfo, reject_error, is_m2, Listing, listed, flush_fields, flush_pairing, list_item,
  list_items, parse_list_reply,
}
use hap_rust.Pairing.Admin.Replies.{IsReported}

-- The entries so far and the fields of the next one are well formed.
record IsWellFormed (s : Listing) : Type 0 where
  entries : All IsReported s.out
  text : (v : List ℕ) → s.id ≡ some v → is_utf8 v ≡ true
  long : (v : List ℕ) → s.ltpk ≡ some v → length v ≡ 32

some_eq : (x y : List ℕ) → some x ≡ some y → x ≡ y
some_eq x y e = cc

listed-IsWellFormed : (out : List PairingInfo) → All IsReported out → IsWellFormed (listed out)
listed-IsWellFormed out h = record { entries = h; text = λ v e. cc; long = λ v e. cc }

flush-IsWellFormed :
    (out : List PairingInfo) (id ltpk : Option (List ℕ)) (admin : Option Bool) (s' : Listing)
    → IsWellFormed (record { out = out; id = id; ltpk = ltpk; admin = admin })
    → flush_fields out id ltpk admin ≡ ok s'
    → IsWellFormed s'
unfolding flush_fields
flush-IsWellFormed out (some i) (some k) (some a) s' w e =
    let p : PairingInfo = record { id = i; ltpk = k; admin = a } in
    subst IsWellFormed (ok-injective _ _ e) (
      listed-IsWellFormed (out ++ p ∷ [])
        (All-append IsReported out (p ∷ []) w.entries ((w.text i refl, w.long k refl), tt)))
flush-IsWellFormed out none none none s' w e =
    subst IsWellFormed (ok-injective _ _ e) (listed-IsWellFormed out w.entries)
flush-IsWellFormed out none none (some a) s' w e = cc
flush-IsWellFormed out none (some k) none s' w e = cc
flush-IsWellFormed out none (some k) (some a) s' w e = cc
flush-IsWellFormed out (some i) none none s' w e = cc
flush-IsWellFormed out (some i) none (some a) s' w e = cc
flush-IsWellFormed out (some i) (some k) none s' w e = cc

identifier-IsWellFormed :
    (s s' : Listing) (v : List ℕ) (x : PairingError)
    → IsWellFormed s
    → (guard (is_utf8 v) x >> ok (record s { id = some v })) ≡ ok s'
    → IsWellFormed s'
identifier-IsWellFormed s s' v x w e =
    let (_, checked, set) = both_steps _ (guard (is_utf8 v) x) e in
    subst IsWellFormed (ok-injective _ _ set) (record {
      entries = w.entries;
      text = λ u h. subst (λ t. is_utf8 t ≡ true) (some_eq v u h) (guard-eq-ok _ _ checked);
      long = w.long;
    })

key-IsWellFormed :
    (s s' : Listing) (v : List ℕ) (x : PairingError)
    → IsWellFormed s
    → (guard (length v == 32) x >> ok (record s { ltpk = some v })) ≡ ok s'
    → IsWellFormed s'
key-IsWellFormed s s' v x w e =
    let (_, checked, set) = both_steps _ (guard (length v == 32) x) e in
    subst IsWellFormed (ok-injective _ _ set) (record {
      entries = w.entries;
      text = w.text;
      long = λ u h.
          subst (λ t. length t ≡ 32) (some_eq v u h)
            ((==_iff (length v) 32).0 (guard-eq-ok _ _ checked));
    })

list_item-IsWellFormed :
    (s s' : Listing) (ty : ℕ) (v : List ℕ)
    → IsWellFormed s
    → list_item s (ty, v) ≡ ok s'
    → IsWellFormed s'
unfolding list_item flush_pairing
list_item-IsWellFormed s s' ty v w e = elim (Bool-cases (ty == separator)) [
  | inl a ↦ flush-IsWellFormed s.out s.id s.ltpk s.admin s' w (rw a at e)
  | inr a ↦ elim (Bool-cases (ty == tlv_identifier)) [
    | inl b ↦ identifier-IsWellFormed s s' v _ w (rw (a, b) at e)
    | inr b ↦ elim (Bool-cases (ty == tlv_public_key)) [
      | inl c ↦ key-IsWellFormed s s' v _ w (rw (a, b, c) at e)
      | inr c ↦ elim (Bool-cases (ty == tlv_permissions)) [
        | inl d ↦
            subst IsWellFormed (ok-injective _ _ (rw (a, b, c, d) at e))
              (record { entries = w.entries; text = w.text; long = w.long })
        | inr d ↦ subst IsWellFormed (ok-injective _ _ (rw (a, b, c, d) at e)) w
      ]
    ]
  ]
]

list_items-IsWellFormed :
    (is : List Item) (s s' : Listing) → IsWellFormed s → list_items is s ≡ ok s' → IsWellFormed s'
unfolding list_items
list_items-IsWellFormed [] s s' w e = subst IsWellFormed (ok-injective _ _ e) w
list_items-IsWellFormed ((ty, v) ∷ is) s s' w e =
    let (t, one, more) = both_steps _ (list_item s (ty, v)) e in
    list_items-IsWellFormed is t s' (list_item-IsWellFormed s t ty v w one) more

-- Whatever an accessory replies, every pairing of a listing that is accepted has an identifier that
-- is a string and a key of 32 bytes.
pub parse_list_reply-IsReported :
    (body : List ℕ) (ps : List PairingInfo) → parse_list_reply body ≡ ok ps → All IsReported ps
unfolding parse_list_reply flush_pairing
parse_list_reply-IsReported body ps e =
    let (is, _, e1) = both_steps _ (map_err tlv8 (Reader.parse body)) e in
    let (_, _, e2) = both_steps _ (reject_error is) e1 in
    let (_, _, e3) = both_steps _ (guard (is_m2 is) _) e2 in
    let (s, read, e4) = both_steps _ (list_items is (listed [])) e3 in
    let (last, flushed, e5) = both_steps _ (flush_pairing s) e4 in
    let w = list_items-IsWellFormed is (listed []) s (listed-IsWellFormed [] tt) read in
    subst (All IsReported) (ok-injective _ _ e5)
      (flush-IsWellFormed s.out s.id s.ltpk s.admin last w flushed).entries
