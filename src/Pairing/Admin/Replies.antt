-- ===== src/Pairing/Admin/Replies.antt =====
-- Replies of an accessory to the listing of its pairings, and what the controller makes of them.
use hap_rust.Common.{
  ℕ, ◌≡◌, refl, sym, ap, ◌∙◌, List, [], ◌∷◌, ◌++◌, append_assoc, append-nil, none, some, Result, ok,
  ◌>>=◌, ◌>>◌, then_ok, both_steps, guard, map_err, Bool, true, false, length, All, is_utf8, arith,
  ==_iff,
}
use hap_rust.Tlv8.Types.{Item}
use hap_rust.Tlv8.Map.{find_item}
use hap_rust.Tlv8.RoundTrip.{push_all, parse-push_all, IsStorable}
use hap_rust.Pairing.Types.{
  PairingError, tlv8, tlv_identifier, tlv_public_key, tlv_permissions, tlv_state, tlv_error,
}
use hap_rust.Pairing.Admin.{
  PairingInfo, reject_error, is_m2, Listing, listed, flush_fields, flush_pairing, is_admin,
  list_item, list_items, parse_list_reply, permissions,
}

-- A pairing as an accessory reports it, and the items of all of them with separators between.
abbrev entry : PairingInfo → List Item
entry p =
    (tlv_identifier, p.id)
    ∷ (tlv_public_key, p.ltpk)
    ∷ (tlv_permissions, permissions p.admin ∷ [])
    ∷ []

abbrev groups : List PairingInfo → List Item
groups [] = []
groups (p ∷ []) = entry p
groups (p ∷ q ∷ ps) = entry p ++ (255, []) ∷ groups (q ∷ ps)

abbrev pub reply_items : List PairingInfo → List Item
reply_items ps = (tlv_state, 2 ∷ []) ∷ groups ps

-- The identifier is a string, and the key has 32 bytes.
abbrev pub IsReported : PairingInfo → Type 0
IsReported p = (is_utf8 p.id ≡ true) × (length p.ltpk ≡ 32)

abbrev filled : List PairingInfo → PairingInfo → Listing
filled out p = record { out = out; id = some p.id; ltpk = some p.ltpk; admin = some p.admin }

is_admin-permissions : (a : Bool) → is_admin (permissions a ∷ []) ≡ a
unfolding is_admin
is_admin-permissions true = refl
is_admin-permissions false = refl

list_items_step :
    (s s' : Listing) (i : Item) (is : List Item)
    → list_item s i ≡ ok s'
    → list_items (i ∷ is) s ≡ list_items is s'
unfolding list_items
list_items_step s s' i is e = then_ok _ e refl

guard_then :
    {t : Bool} (e : PairingError) (r : Result PairingError Listing)
    → t ≡ true
    → (guard t e >> r) ≡ r
guard_then e r h = ap (λ b. guard b e >> r) h

list_identifier :
    (s : Listing) (v : List ℕ)
    → is_utf8 v ≡ true
    → list_item s (tlv_identifier, v) ≡ ok (record s { id = some v })
unfolding list_item
list_identifier s v e = guard_then _ _ e

list_public_key :
    (s : Listing) (v : List ℕ)
    → length v ≡ 32
    → list_item s (tlv_public_key, v) ≡ ok (record s { ltpk = some v })
unfolding list_item
list_public_key s v e = guard_then _ _ ((==_iff (length v) 32).1 e)

list_permissions :
    (s : Listing) (a : Bool)
    → list_item s (tlv_permissions, permissions a ∷ []) ≡ ok (record s { admin = some a })
unfolding list_item
list_permissions s a = ap (λ b. ok (record s { admin = some b })) (is_admin-permissions a)

list_items-entry :
    (p : PairingInfo) (rest : List Item) (out : List PairingInfo)
    → IsReported p
    → list_items (entry p ++ rest) (listed out) ≡ list_items rest (filled out p)
list_items-entry p rest out (text, long) =
    list_items_step (listed out) (record (listed out) { id = some p.id }) _ _
      (list_identifier (listed out) p.id text)
    ∙ list_items_step (record (listed out) { id = some p.id })
        (record (filled out p) { admin = none }) _ _
        (list_public_key (record (listed out) { id = some p.id }) p.ltpk long)
    ∙ list_items_step (record (filled out p) { admin = none }) (filled out p) _ rest
        (list_permissions (record (filled out p) { admin = none }) p.admin)

flush_filled :
    (out : List PairingInfo) (p : PairingInfo)
    → flush_pairing (filled out p) ≡ ok (listed (out ++ p ∷ []))
unfolding flush_pairing flush_fields
flush_filled out p = refl

separator_step :
    (out : List PairingInfo) (p : PairingInfo) (rest : List Item)
    → list_items ((255, []) ∷ rest) (filled out p) ≡ list_items rest (listed (out ++ p ∷ []))
separator_step out p rest =
    list_items_step (filled out p) (listed (out ++ p ∷ [])) (255, []) rest
      (unfold list_item in flush_filled out p)

list_items-groups :
    (ps : List PairingInfo) (out : List PairingInfo)
    → All IsReported ps
    → (list_items (groups ps) (listed out) >>= flush_pairing) ≡ ok (listed (out ++ ps))
list_items-groups [] out h =
    unfold list_items flush_pairing flush_fields in ap (λ x. ok (listed x)) (sym (append-nil out))
list_items-groups (p ∷ []) out h =
    ap (λ x. x >>= flush_pairing)
      (ap (λ is. list_items is (listed out)) (sym (append-nil (entry p)))
        ∙ list_items-entry p [] out h.0)
    ∙ unfold list_items in flush_filled out p
list_items-groups (p ∷ q ∷ ps) out h =
    ap (λ x. x >>= flush_pairing)
      (list_items-entry p ((255, []) ∷ groups (q ∷ ps)) out h.0
        ∙ separator_step out p (groups (q ∷ ps)))
    ∙ list_items-groups (q ∷ ps) (out ++ p ∷ []) h.1
    ∙ ap (λ x. ok (listed x)) (append_assoc out (p ∷ []) (q ∷ ps))

find_item-groups : (ps : List PairingInfo) → find_item (groups ps) tlv_error ≡ none
unfolding find_item
find_item-groups [] = refl
find_item-groups (p ∷ []) = refl
find_item-groups (p ∷ q ∷ ps) = find_item-groups (q ∷ ps)

groups-IsStorable : (ps : List PairingInfo) → All IsStorable (groups ps)
groups-IsStorable [] = tt
groups-IsStorable (p ∷ []) = omega arith
groups-IsStorable (p ∷ q ∷ ps) =
    (omega arith, (omega arith, (omega arith, (omega arith, groups-IsStorable (q ∷ ps)))))

reject_reply : (ps : List PairingInfo) → reject_error (reply_items ps) ≡ ok tt
unfolding reject_error find_item
reject_reply ps = rw (find_item-groups ps, reject_error) refl

-- The controller reads every list of pairings that an accessory reports, one group of three items
-- for each and separators between.
pub parse_list_reply-push_all :
    (ps : List PairingInfo)
    → All IsReported ps
    → parse_list_reply (push_all [] (reply_items ps)) ≡ ok ps
unfolding parse_list_reply is_m2 find_item list_items list_item
parse_list_reply-push_all ps h =
    let (s, read, flushed) =
      both_steps flush_pairing (list_items (groups ps) (listed [])) (list_items-groups ps [] h) in
    then_ok _
      (ap (map_err tlv8)
        (parse-push_all (reply_items ps) ((λ e. omega arith), groups-IsStorable ps)))
      (then_ok _ (reject_reply ps) (then_ok _ read (then_ok _ flushed refl)))
