-- ===== src/Pairing/Admin.antt =====
-- crates/hap-pairing/src/pairings.rs: adding, removing and listing the pairings of an accessory.
pub mod Replies
pub mod Accepted
use Prim.Native.String.{String}
use hap_rust.Common.{
  ℕ, List, [], ◌∷◌, ◌++◌, Option, none, some, Result, ok, err, stuck, ◌>>=◌, ◌>>◌, map_err, guard,
  Bool, true, false, not, length, bit_and, ◌==◌, if◌then◌else◌, is_utf8,
}
use hap_rust.Tlv8.Types.{Item, separator}
use hap_rust.Tlv8.Reader
use hap_rust.Tlv8.Map.{find_item}
use hap_rust.Tlv8.Writer.{push, push_u8}
use hap_rust.Pairing.Types.{
  PairingError, tlv8, accessory, malformed, PairingSession, tlv_method, tlv_identifier,
  tlv_public_key, tlv_state, tlv_error, tlv_permissions, method_add, method_remove, method_list,
  state_m1, state_m2, perm_admin, perm_user,
}

-- An identifier is given by its UTF-8 bytes.
pub record PairingInfo : Type 0 where
  pub id : List ℕ
  pub ltpk : List ℕ
  pub admin : Bool

abbrev pub pairings_path : String
pairings_path = "/pairings"

-- The item of type `TLV_ERROR`, where there is one, makes the reply an error.
unfoldable pub reject_error : List Item → Result PairingError (Unit {0})
unfolding find_item
reject_error items = elim (find_item items tlv_error) [
  | none ↦ ok tt
  | some [] ↦ err (malformed "empty error tlv")
  | some (code ∷ bytes) ↦ err (accessory code)
]

-- `state == Some(STATE_M2)`
unfoldable pub is_m2 : List Item → Bool
unfolding find_item
is_m2 items = elim (find_item items tlv_state) [
  | none ↦ false
  | some [] ↦ false
  | some (s ∷ bytes) ↦ s == state_m2
]

unfoldable pub expect_m2_ok : List ℕ → Result PairingError (Unit {0})
unfolding reject_error is_m2
expect_m2_ok body = do
  items ← map_err tlv8 (Reader.parse body)
  reject_error items
  guard (is_m2 items) (malformed "expected pairings reply state M2")

-- The variables of the loop in `parse_list_reply`.
pub record Listing : Type 0 where
  pub out : List PairingInfo
  pub id : Option (List ℕ)
  pub ltpk : Option (List ℕ)
  pub admin : Option Bool

abbrev pub listed : List PairingInfo → Listing
listed out = record { out = out; id = none; ltpk = none; admin = none }

-- `take()` resets the three fields either way.
unfoldable pub flush_fields :
    List PairingInfo → Option (List ℕ) → Option (List ℕ) → Option Bool → Result PairingError Listing
flush_fields out (some id) (some ltpk) (some admin) =
    ok (listed (out ++ record { id = id; ltpk = ltpk; admin = admin } ∷ []))
flush_fields out none none none = ok (listed out)
flush_fields out _ _ _ = err (malformed "incomplete pairing entry")

unfoldable pub flush_pairing : Listing → Result PairingError Listing
unfolding flush_fields
flush_pairing s = flush_fields s.out s.id s.ltpk s.admin

-- `(value.first().copied().unwrap_or(0) & PERM_ADMIN) != 0`
unfoldable pub is_admin : List ℕ → Bool
is_admin [] = false
is_admin (b ∷ bs) = not (bit_and b perm_admin == 0)

unfoldable pub list_item : Listing → Item → Result PairingError Listing
unfolding flush_pairing is_utf8 is_admin
list_item s (ty, value) =
    if ty == separator
    then flush_pairing s
    else if ty == tlv_identifier
    then (guard (is_utf8 value) (malformed "pairing identifier is not utf-8")
        >> ok (record s { id = some value }))
    else if ty == tlv_public_key
    then (guard (length value == 32) (malformed "pairing public key is not 32 bytes")
        >> ok (record s { ltpk = some value }))
    else if ty == tlv_permissions
    then ok (record s { admin = some (is_admin value) })
    else ok s

unfoldable pub list_items : List Item → Listing → Result PairingError Listing
unfolding list_item
list_items [] s = ok s
list_items (i ∷ is) s = do s' ← list_item s i; list_items is s'

unfoldable pub parse_list_reply : List ℕ → Result PairingError (List PairingInfo)
unfolding reject_error is_m2 list_items flush_pairing
parse_list_reply body = do
  items ← map_err tlv8 (Reader.parse body)
  reject_error items
  guard (is_m2 items) (malformed "expected pairings reply state M2")
  s ← list_items items (listed [])
  last ← flush_pairing s
  ok last.out

abbrev pub permissions : Bool → ℕ
permissions admin = if admin then perm_admin else perm_user

unfoldable pub add_body : List ℕ → List ℕ → Bool → List ℕ
add_body id ltpk admin =
    let head = push_u8 (push_u8 [] tlv_state state_m1) tlv_method method_add in
    push_u8 (push (push head tlv_identifier id) tlv_public_key ltpk) tlv_permissions
      (permissions admin)

unfoldable pub remove_body : List ℕ → List ℕ
remove_body id =
    push (push_u8 (push_u8 [] tlv_state state_m1) tlv_method method_remove) tlv_identifier id

abbrev pub list_body : List ℕ
list_body = push_u8 (push_u8 [] tlv_state state_m1) tlv_method method_list

module _ {S : Type 0} (session : PairingSession S) where
  unfoldable pub add : List ℕ → List ℕ → Bool → S → Result PairingError (Unit {0}) × S
  unfolding add_body expect_m2_ok
  add id ltpk admin s =
      let (reply, s') = session.post_tlv8 pairings_path (add_body id ltpk admin) s in
      (reply >>= expect_m2_ok, s')

  unfoldable pub remove : List ℕ → S → Result PairingError (Unit {0}) × S
  unfolding remove_body expect_m2_ok
  remove id s =
      let (reply, s') = session.post_tlv8 pairings_path (remove_body id) s in
      (reply >>= expect_m2_ok, s')

  unfoldable pub list : S → Result PairingError (List PairingInfo) × S
  unfolding parse_list_reply
  list s =
      let (reply, s') = session.post_tlv8 pairings_path list_body s in
      (reply >>= parse_list_reply, s')
