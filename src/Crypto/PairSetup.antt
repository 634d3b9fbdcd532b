-- ===== src/Crypto/PairSetup.antt =====
-- crates/hap-crypto/src/pair_setup.rs: the controller's side of Pair Setup.
pub mod Types
pub mod Safety
pub mod Driven
mod Runs
use hap_rust.Common.{
  ℕ, List, [], ◌∷◌, ◌++◌, Option, none, some, Result, ok, err, stuck, ◌>>=◌, ◌>>◌, map_err, guard,
  length, take, drop, leb, ◌==◌, ◌&&◌, if◌then◌else◌, is_utf8,
}
use hap_rust.Tlv8.Map
use hap_rust.Tlv8.Map.{Tlv8Map}
use hap_rust.Tlv8.Writer.{push, push_u8}
use hap_rust.Crypto.Types.{
  CryptoError, encoding, srp_proof_mismatch, tlv, tlv_method, tlv_identifier, tlv_salt,
  tlv_public_key, tlv_proof, tlv_encrypted_data, tlv_state, tlv_error, tlv_signature,
  method_pair_setup,
}
use hap_rust.Crypto.Aead.{encrypt, decrypt, hap_nonce}
use hap_rust.Crypto.Primitives.{
  Primitives, ControllerKeypair, hkdf_sha512, ltpk, sign, verify_ed25519,
}
use hap_rust.Crypto.Srp.{
  Arithmetic, SrpClient, pad, premaster, client_session_key, client_proof_m1, verify_m2,
  with_private,
}
use hap_rust.Crypto.Srp.Group.{hap_group}
use hap_rust.Crypto.PairVerify.Types.{AccessoryPairing, state_m1, state_m2, state_m3, state_m4}
use hap_rust.Crypto.PairVerify.{required, to_array}
use hap_rust.Crypto.PairSetup.Types.{
  pair_setup_username, encrypt_salt, encrypt_info, controller_sign_salt, controller_sign_info,
  accessory_sign_salt, accessory_sign_info, nonce_m5, nonce_m6, state_m5, state_m6, PairSetupStep,
  send, done, State, initial, awaiting_m2, awaiting_m4, awaiting_m6, finished, PairSetupClient,
}

-- `code.chars().filter(char::is_ascii_digit)`, on the UTF-8 bytes: the bytes of a character beyond
-- ASCII are no digits.
unfoldable pub ascii_digits : List ℕ → List ℕ
ascii_digits [] = []
ascii_digits (b ∷ bs) =
    let rest = ascii_digits bs in if leb 48 b && leb b 57 then b ∷ rest else rest

-- The byte 45 is a hyphen.
unfoldable pub normalize_setup_code : List ℕ → List ℕ
unfolding ascii_digits
normalize_setup_code code =
    let digits = ascii_digits code in
    if length digits == 8
    then take 3 digits ++ 45 ∷ (take 2 (drop 3 digits) ++ 45 ∷ take 3 (drop 5 digits))
    else code

unfoldable pub check_error : Tlv8Map → Result CryptoError (Unit {0})
check_error m = elim (Map.get m tlv_error) [
  | none ↦ ok tt
  | some [] ↦ ok tt
  | some (b ∷ []) ↦
      err (if b == 2 then srp_proof_mismatch else encoding "accessory returned a pairing error")
  | some (b ∷ c ∷ bs) ↦ err (encoding "accessory returned a pairing error")
]

unfoldable pub state_is : ℕ → Option ℕ → Result CryptoError (Unit {0})
state_is expected none = ok tt
state_is expected (some s) = guard (s == expected) (encoding "unexpected Pair Setup state")

unfoldable pub expect_state : Tlv8Map → ℕ → Result CryptoError (Unit {0})
unfolding state_is
expect_state m expected = map_err tlv (Map.get_u8 m tlv_state) >>= state_is expected

module _ (p : Primitives) (z : Arithmetic) where
  unfoldable pub new_with_private :
      List ℕ → ControllerKeypair → List ℕ → Result CryptoError PairSetupClient
  unfolding normalize_setup_code hap_group with_private
  new_with_private setup_code controller a = do
    group ← hap_group z
    srp ← with_private z group pair_setup_username (z.from_bytes_be a)
    ok (record {
      password = normalize_setup_code setup_code;
      controller = controller;
      srp = srp;
      state = initial;
    })

  -- M1, and the client that awaits M2.
  unfoldable pub start : PairSetupClient → List ℕ × PairSetupClient
  start c = (
    push_u8 (push_u8 [] tlv_state state_m1) tlv_method method_pair_setup,
    record c { state = awaiting_m2 },
  )

  -- M2 up to M3: the session key, the proof, and the message.
  unfoldable pub answer_m2 :
      PairSetupClient → Tlv8Map → Result CryptoError (List ℕ × List ℕ × List ℕ)
  unfolding expect_state required premaster client_session_key client_proof_m1 pad
  answer_m2 c m = do
    expect_state m state_m2
    salt ← required m tlv_salt "M2 missing salt"
    b_bytes ← required m tlv_public_key "M2 missing accessory public key B"
    let b_pub = z.from_bytes_be b_bytes
    pm ← premaster z c.srp salt c.password b_pub
    let session_key = client_session_key z c.srp pm
    let m1 = client_proof_m1 z c.srp salt b_pub session_key
    let head = push_u8 [] tlv_state state_m3
    ok (
      session_key,
      m1,
      push (push head tlv_public_key (pad z c.srp.group c.srp.a_pub)) tlv_proof m1,
    )

  unfoldable pub after_m2 :
      PairSetupClient
      → Result CryptoError (List ℕ × List ℕ × List ℕ)
      → Result CryptoError PairSetupStep × PairSetupClient
  after_m2 c (ok (session_key, m1, m3)) =
      (ok (send m3), record c { state = awaiting_m4 session_key m1 })
  after_m2 c (err e) = (err e, c)
  after_m2 c stuck = (stuck, c)

  unfoldable pub handle_m2 :
      PairSetupClient → Tlv8Map → Result CryptoError PairSetupStep × PairSetupClient
  unfolding answer_m2 after_m2
  handle_m2 c m = after_m2 c (answer_m2 c m)

  -- What the controller signs in M5.
  unfoldable pub m5_signed : (ios_device_x id key : List ℕ) → List ℕ
  m5_signed ios_device_x id key = (ios_device_x ++ id) ++ key

  unfoldable pub build_m5 : PairSetupClient → (session_key : List ℕ) → Result CryptoError (List ℕ)
  unfolding hkdf_sha512 m5_signed sign ltpk encrypt
  build_m5 c session_key = do
    enc_key ← hkdf_sha512 p session_key encrypt_salt encrypt_info 32
    ios_device_x ← hkdf_sha512 p session_key controller_sign_salt controller_sign_info 32
    let id = c.controller.id
    let key = ltpk p c.controller
    let signature = sign p c.controller (m5_signed ios_device_x id key)
    let sub = push (push (push [] tlv_identifier id) tlv_public_key key) tlv_signature signature
    sealed ← encrypt p.chacha enc_key (hap_nonce nonce_m5) [] sub
    ok (push (push_u8 [] tlv_state state_m5) tlv_encrypted_data sealed)

  -- M4 up to M5.
  unfoldable pub answer_m4 :
      PairSetupClient → (session_key m1 : List ℕ) → Tlv8Map → Result CryptoError (List ℕ)
  unfolding expect_state required verify_m2 build_m5
  answer_m4 c session_key m1 m = do
    expect_state m state_m4
    proof ← required m tlv_proof "M4 missing accessory proof M2"
    verify_m2 z c.srp m1 session_key proof
    build_m5 c session_key

  unfoldable pub after_m4 :
      PairSetupClient
      → (session_key : List ℕ) → Result CryptoError (List ℕ)
      → Result CryptoError PairSetupStep × PairSetupClient
  after_m4 c session_key (ok m5) = (ok (send m5), record c { state = awaiting_m6 session_key })
  after_m4 c session_key (err e) = (err e, c)
  after_m4 c session_key stuck = (stuck, c)

  unfoldable pub handle_m4 :
      PairSetupClient
      → (session_key m1 : List ℕ) → Tlv8Map
      → Result CryptoError PairSetupStep × PairSetupClient
  unfolding answer_m4 after_m4
  handle_m4 c session_key m1 m = after_m4 c session_key (answer_m4 c session_key m1 m)

  -- What the accessory signs in M6.
  unfoldable pub m6_signed : (accessory_x id key : List ℕ) → List ℕ
  m6_signed accessory_x id key = (accessory_x ++ id) ++ key

  -- The pairing in the decrypted part of M6, its signature checked under the key that it brings.
  unfoldable pub open_sub : (session_key plaintext : List ℕ) → Result CryptoError AccessoryPairing
  unfolding required to_array is_utf8 hkdf_sha512 m6_signed verify_ed25519
  open_sub session_key plaintext = do
    sub ← map_err tlv (Map.parse plaintext)
    id ← required sub tlv_identifier "M6 sub-TLV missing identifier"
    key_bytes ← required sub tlv_public_key "M6 sub-TLV missing public key"
    sig_bytes ← required sub tlv_signature "M6 sub-TLV missing signature"
    key ← to_array 32 key_bytes "accessory LTPK is not 32 bytes"
    signature ← to_array 64 sig_bytes "accessory signature is not 64 bytes"
    guard (is_utf8 id) (encoding "accessory pairing id is not valid UTF-8")
    accessory_x ← hkdf_sha512 p session_key accessory_sign_salt accessory_sign_info 32
    verify_ed25519 p key (m6_signed accessory_x id key) signature
    ok (record { pairing_id = id; ltpk = key })

  unfoldable pub answer_m6 : (session_key : List ℕ) → Tlv8Map → Result CryptoError PairSetupStep
  unfolding required hkdf_sha512 decrypt open_sub
  answer_m6 session_key m = do
    encrypted ← required m tlv_encrypted_data "M6 missing encrypted data"
    enc_key ← hkdf_sha512 p session_key encrypt_salt encrypt_info 32
    plaintext ← decrypt p.chacha enc_key (hap_nonce nonce_m6) [] encrypted
    pairing ← open_sub session_key plaintext
    ok (done pairing)

  -- Once the state of M6 is right the client is finished, whatever follows.
  unfoldable pub after_m6 :
      PairSetupClient
      → Result CryptoError (Unit {0})
      → Result CryptoError PairSetupStep
      → Result CryptoError PairSetupStep × PairSetupClient
  after_m6 c (ok checked) step = (step, record c { state = finished })
  after_m6 c (err e) step = (err e, c)
  after_m6 c stuck step = (stuck, c)

  unfoldable pub handle_m6 :
      PairSetupClient
      → (session_key : List ℕ) → Tlv8Map
      → Result CryptoError PairSetupStep × PairSetupClient
  unfolding expect_state answer_m6 after_m6
  handle_m6 c session_key m = after_m6 c (expect_state m state_m6) (answer_m6 session_key m)

  unfoldable pub dispatch :
      State → PairSetupClient → Tlv8Map → Result CryptoError PairSetupStep × PairSetupClient
  unfolding handle_m2 handle_m4 handle_m6
  dispatch initial c m = (err (encoding "Pair Setup not started"), c)
  dispatch awaiting_m2 c m = handle_m2 c m
  dispatch (awaiting_m4 session_key m1) c m = handle_m4 c session_key m1 m
  dispatch (awaiting_m6 session_key) c m = handle_m6 c session_key m
  dispatch finished c m = (err (encoding "Pair Setup already finished"), c)

  -- The message is parsed and its error looked at before the state is.
  unfoldable pub accept : List ℕ → Result CryptoError Tlv8Map
  unfolding check_error
  accept response = do m ← map_err tlv (Map.parse response); check_error m; ok m

  unfoldable pub after_accept :
      PairSetupClient
      → Result CryptoError Tlv8Map
      → Result CryptoError PairSetupStep × PairSetupClient
  unfolding dispatch
  after_accept c (ok m) = dispatch c.state c m
  after_accept c (err e) = (err e, c)
  after_accept c stuck = (stuck, c)

  unfoldable pub handle :
      PairSetupClient → List ℕ → Result CryptoError PairSetupStep × PairSetupClient
  unfolding accept after_accept
  handle c response = after_accept c (accept response)
