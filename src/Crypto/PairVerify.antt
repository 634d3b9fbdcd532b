-- ===== src/Crypto/PairVerify.antt =====
-- crates/hap-crypto/src/pair_verify.rs: the controller's side of Pair Verify.
pub mod Types
pub mod Safety
pub mod Handshake
use Prim.Native.String.{String}
use hap_rust.Common.{
  ℕ, List, [], ◌∷◌, ◌++◌, Option, none, some, Result, ok, err, stuck, ◌>>=◌, ◌>>◌, ok_or, map_err,
  guard, length, ◌==◌, Bool, ◌≡◌, true, false, ◌&&◌,
}
use hap_rust.Tlv8.Map
use hap_rust.Tlv8.Map.{Tlv8Map}
use hap_rust.Tlv8.Writer.{push, push_u8}
use hap_rust.Crypto.Types.{
  CryptoError, encoding, tlv, tlv_identifier, tlv_public_key, tlv_encrypted_data, tlv_state,
  tlv_error, tlv_signature,
}
use hap_rust.Crypto.Aead.{encrypt, decrypt, hap_nonce}
use hap_rust.Crypto.Primitives.{
  Primitives, from_secret, hkdf_sha512, diffie_hellman, verify_ed25519, ControllerKeypair,
}
use hap_rust.Crypto.PairVerify.Types.{
  pv_encrypt_salt, pv_encrypt_info, control_salt, control_read_info, control_write_info, event_salt,
  event_read_info, nonce_m2, nonce_m3, state_m1, state_m2, state_m3, state_m4, SessionKeys,
  AccessoryPairing, PairVerifyStep, send, done, State, init, await_m2, await_m4, finished,
  PairVerifyClient, build,
}

-- Equality of byte slices.
abbrev pub bytes_eq : List ℕ → List ℕ → Bool
bytes_eq [] [] = true
bytes_eq [] (y ∷ ys) = false
bytes_eq (x ∷ xs) [] = false
bytes_eq (x ∷ xs) (y ∷ ys) = (x == y) && bytes_eq xs ys

-- `map.get(ty).ok_or(CryptoError::Encoding(..))?`
unfoldable pub required : Tlv8Map → ℕ → String → Result CryptoError (List ℕ)
required m ty missing = ok_or (Map.get m ty) (encoding missing)

-- `try_into()` to an array of so many bytes
unfoldable pub to_array : ℕ → List ℕ → String → Result CryptoError (List ℕ)
to_array n bytes wrong = do guard (length bytes == n) (encoding wrong); ok bytes

unfoldable pub check_error : Tlv8Map → Result CryptoError (Unit {0})
check_error m = elim (Map.get m tlv_error) [
  | none ↦ ok tt
  | some [] ↦ ok tt
  | some (b ∷ bs) ↦ err (encoding "accessory returned a Pair Verify error")
]

unfoldable pub state_is : ℕ → Option ℕ → Result CryptoError (Unit {0})
state_is expected none = ok tt
state_is expected (some s) = guard (s == expected) (encoding "unexpected Pair Verify state")

unfoldable pub expect_state : Tlv8Map → ℕ → Result CryptoError (Unit {0})
unfolding state_is
expect_state m expected = map_err tlv (Map.get_u8 m tlv_state) >>= state_is expected

module _ (p : Primitives) where
  unfoldable pub derive_key : (shared salt info : List ℕ) → Result CryptoError (List ℕ)
  unfolding hkdf_sha512
  derive_key shared salt info = hkdf_sha512 p shared salt info 32

  unfoldable pub new_with_ephemeral :
      ControllerKeypair → AccessoryPairing → List ℕ → PairVerifyClient
  unfolding build from_secret
  new_with_ephemeral controller accessory secret = build controller accessory (from_secret p secret)

  -- M1, and the client that awaits M2.
  unfoldable pub start : PairVerifyClient → List ℕ × PairVerifyClient
  start c = (
    push (push_u8 [] tlv_state state_m1) tlv_public_key c.ephemeral.public_key,
    record c { state = await_m2 },
  )

  unfoldable pub m3_signed : (controller_eph_pub id accessory_eph_pub : List ℕ) → List ℕ
  m3_signed controller_eph_pub id accessory_eph_pub =
      (controller_eph_pub ++ id) ++ accessory_eph_pub

  unfoldable pub build_m3 :
      PairVerifyClient
      → (pv_key controller_eph_pub accessory_eph_pub : List ℕ) → Result CryptoError (List ℕ)
  unfolding m3_signed encrypt
  build_m3 c pv_key controller_eph_pub accessory_eph_pub = do
    let signature =
        p.sign_with c.signing (m3_signed controller_eph_pub c.controller_id accessory_eph_pub)
    let sub = push (push [] tlv_identifier c.controller_id) tlv_signature signature
    sealed ← encrypt p.chacha pv_key (hap_nonce nonce_m3) [] sub
    ok (push (push_u8 [] tlv_state state_m3) tlv_encrypted_data sealed)

  -- What the accessory signs.
  unfoldable pub m2_signed : (accessory_eph_pub identifier controller_eph_pub : List ℕ) → List ℕ
  m2_signed accessory_eph_pub identifier controller_eph_pub =
      (accessory_eph_pub ++ identifier) ++ controller_eph_pub

  -- The decrypted part of M2: the identifier of the stored pairing, and a signature that verifies
  -- under its long-term key.
  unfoldable pub verify_sub :
      PairVerifyClient → (plaintext eph : List ℕ) → Result CryptoError (Unit {0})
  unfolding m2_signed verify_ed25519
  verify_sub c plaintext eph = do
    sub ← map_err tlv (Map.parse plaintext)
    identifier ← required sub tlv_identifier "M2 sub-TLV missing identifier"
    sig_bytes ← required sub tlv_signature "M2 sub-TLV missing signature"
    signature ← to_array 64 sig_bytes "M2 signature not 64 bytes"
    guard (bytes_eq identifier c.accessory.pairing_id)
        (encoding "M2 accessory identifier does not match stored pairing")
    verify_ed25519 p c.accessory.ltpk (m2_signed eph identifier c.ephemeral.public_key) signature

  -- M2 up to M3: the shared secret and the message.
  unfoldable pub answer_m2 : PairVerifyClient → List ℕ → Result CryptoError (List ℕ × List ℕ)
  unfolding derive_key verify_sub build_m3 diffie_hellman decrypt
  answer_m2 c response = do
    m ← map_err tlv (Map.parse response)
    check_error m
    expect_state m state_m2
    eph_bytes ← required m tlv_public_key "M2 missing accessory ephemeral key"
    eph ← to_array 32 eph_bytes "M2 accessory ephemeral key not 32 bytes"
    encrypted ← required m tlv_encrypted_data "M2 missing encrypted data"
    let shared = diffie_hellman p c.ephemeral eph
    pv_key ← derive_key shared pv_encrypt_salt pv_encrypt_info
    plaintext ← decrypt p.chacha pv_key (hap_nonce nonce_m2) [] encrypted
    verify_sub c plaintext eph
    m3 ← build_m3 c pv_key c.ephemeral.public_key eph
    ok (shared, m3)

  -- The client changes only where every check has passed.
  unfoldable pub after_m2 :
      PairVerifyClient
      → Result CryptoError (List ℕ × List ℕ)
      → Result CryptoError PairVerifyStep × PairVerifyClient
  after_m2 c (ok (shared, m3)) =
      (ok (send m3), record c { shared_secret = some shared; state = await_m4 })
  after_m2 c (err e) = (err e, c)
  after_m2 c stuck = (stuck, c)

  unfoldable pub handle_m2 :
      PairVerifyClient → List ℕ → Result CryptoError PairVerifyStep × PairVerifyClient
  unfolding answer_m2 after_m2
  handle_m2 c response = after_m2 c (answer_m2 c response)

  unfoldable pub session_keys : List ℕ → Result CryptoError SessionKeys
  unfolding derive_key
  session_keys shared = do
    read_key ← derive_key shared control_salt control_read_info
    write_key ← derive_key shared control_salt control_write_info
    ok (record { read_key = read_key; write_key = write_key })

  unfoldable pub answer_m4 : PairVerifyClient → List ℕ → Result CryptoError SessionKeys
  unfolding session_keys
  answer_m4 c response = do
    m ← map_err tlv (Map.parse response)
    check_error m
    expect_state m state_m4
    shared ← ok_or c.shared_secret (encoding "Pair Verify shared secret missing")
    session_keys shared

  unfoldable pub after_m4 :
      PairVerifyClient
      → Result CryptoError SessionKeys
      → Result CryptoError PairVerifyStep × PairVerifyClient
  after_m4 c (ok keys) = (ok (done keys), record c { state = finished })
  after_m4 c (err e) = (err e, c)
  after_m4 c stuck = (stuck, c)

  unfoldable pub handle_m4 :
      PairVerifyClient → List ℕ → Result CryptoError PairVerifyStep × PairVerifyClient
  unfolding answer_m4 after_m4
  handle_m4 c response = after_m4 c (answer_m4 c response)

  unfoldable pub dispatch :
      State → PairVerifyClient → List ℕ → Result CryptoError PairVerifyStep × PairVerifyClient
  unfolding handle_m2 handle_m4
  dispatch init c response = (err (encoding "Pair Verify handle called before start"), c)
  dispatch await_m2 c response = handle_m2 c response
  dispatch await_m4 c response = handle_m4 c response
  dispatch finished c response = (err (encoding "Pair Verify handle called after completion"), c)

  unfoldable pub handle :
      PairVerifyClient → List ℕ → Result CryptoError PairVerifyStep × PairVerifyClient
  unfolding dispatch
  handle c response = dispatch c.state c response

  unfoldable pub event_key : PairVerifyClient → Result CryptoError (List ℕ)
  unfolding derive_key
  event_key c = do
    shared ← ok_or c.shared_secret (encoding "Pair Verify shared secret missing")
    derive_key shared event_salt event_read_info
