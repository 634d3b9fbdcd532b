-- ===== src/Dut/Setup.antt =====
-- crates/hap-thread-dut/src/pairing.rs: the accessory's side of Pair Setup, with the SRP server of
-- crates/hap-crypto/src/pair_setup.rs. The salt and the private number of the server are arguments.
pub mod Safety
use hap_rust.Common.{
  ℕ, List, [], ◌++◌, Option, none, some, Result, ok, err, stuck, ◌>>=◌, ◌>>◌, ok_or, map_err,
  length, ◌==◌, if◌then◌else◌, is_utf8,
}
use hap_rust.Tlv8.Map
use hap_rust.Tlv8.Map.{Tlv8Map}
use hap_rust.Tlv8.Writer.{push, push_u8}
use hap_rust.Crypto.Types.{
  CryptoError, tlv_method, tlv_identifier, tlv_salt, tlv_public_key, tlv_proof, tlv_encrypted_data,
  tlv_state, tlv_error, tlv_signature, method_pair_setup,
}
use hap_rust.Crypto.Aead.{chacha20poly1305_seal, chacha20poly1305_open}
use hap_rust.Crypto.Primitives.{Primitives, ControllerKeypair, ltpk, sign, verify_ed25519}
use hap_rust.Crypto.Srp.{Arithmetic, SrpServer, pad, new_server, server_session_key}
use hap_rust.Crypto.Srp
use hap_rust.Crypto.Srp.Group.{hap_group}
use hap_rust.Crypto.PairVerify.Types.{state_m1, state_m2, state_m3, state_m4}
use hap_rust.Crypto.PairSetup.{normalize_setup_code}
use hap_rust.Crypto.PairSetup.Types.{
  pair_setup_username, encrypt_salt, encrypt_info, controller_sign_salt, controller_sign_info,
  accessory_sign_salt, accessory_sign_info, nonce_m5, nonce_m6, state_m5, state_m6,
}
use hap_rust.Thread.Accessory.{DutError, crypto, tlv8, protocol}
use hap_rust.Dut.Hap.{error_authentication, nonce_label, hkdf32}
use hap_rust.Dut.Verify.{expect_state, error_m4, sized}

-- A controller's identifier and long-term key, as `String` and `[u8; 32]`.
pub record ControllerPairing : Type 0 where
  pub id : List ℕ
  pub ltpk : List ℕ

pub data SetupInProgress : Type 0 where
  awaiting_m3 : SrpServer → SetupInProgress
  awaiting_m5 : (session_key : List ℕ) → SetupInProgress

unfoldable pub error_m6 : List ℕ
error_m6 = push_u8 (push_u8 [] tlv_state state_m6) tlv_error error_authentication

-- A missing method is taken for Pair Setup.
unfoldable pub check_method : Option ℕ → Result DutError (Unit {0})
check_method none = ok tt
check_method (some n) =
    if n == method_pair_setup then ok tt else err (protocol "unsupported pairing Method in M1")

module _ (z : Arithmetic) where
  -- `HapPairSetupSrpServer::new`
  unfoldable pub new : (setup_code salt b : List ℕ) → Result CryptoError SrpServer
  unfolding normalize_setup_code hap_group new_server
  new setup_code salt b = do
    group ← hap_group z
    let password = normalize_setup_code setup_code
    ok (new_server z group pair_setup_username password salt (z.from_bytes_be b))

  unfoldable pub b_pub_bytes : SrpServer → List ℕ
  unfolding pad
  b_pub_bytes server = pad z server.group server.b_pub

  unfoldable pub session_key : SrpServer → List ℕ → Result CryptoError (List ℕ)
  unfolding server_session_key
  session_key server a_pub_bytes = server_session_key z server (z.from_bytes_be a_pub_bytes)

  unfoldable pub verify_m1_prove_m2 :
      SrpServer → (a_pub_bytes m1 : List ℕ) → Result CryptoError (List ℕ)
  unfolding server_session_key Srp.verify_m1_prove_m2
  verify_m1_prove_m2 server a_pub_bytes m1 = do
    let a_pub = z.from_bytes_be a_pub_bytes
    key ← server_session_key z server a_pub
    Srp.verify_m1_prove_m2 z server a_pub key m1

  unfoldable pub handle_setup_m1 :
      (setup_code salt b m1 : List ℕ) → Result DutError (List ℕ × SetupInProgress)
  unfolding expect_state check_method new b_pub_bytes
  handle_setup_m1 setup_code salt b m1 = do
    m ← map_err tlv8 (Map.parse m1)
    expect_state m state_m1
    method ← map_err tlv8 (Map.get_u8 m tlv_method)
    check_method method
    server ← map_err crypto (new setup_code salt b)
    let head = push (push_u8 [] tlv_state state_m2) tlv_salt server.salt
    ok (push head tlv_public_key (b_pub_bytes server), awaiting_m3 server)

  -- M4 from the session key and the accessory's proof, where both are there.
  unfoldable pub prove :
      Result CryptoError (List ℕ)
      → Result CryptoError (List ℕ)
      → Result DutError (List ℕ × Option (List ℕ))
  prove (ok key) (ok m2_proof) =
      ok (push (push_u8 [] tlv_state state_m4) tlv_proof m2_proof, some key)
  prove (ok key) (err e) = ok (error_m4, none)
  prove (ok key) stuck = stuck
  prove (err e) proof = ok (error_m4, none)
  prove stuck proof = stuck

  unfoldable pub handle_setup_m3 :
      SrpServer → (m3 : List ℕ) → Result DutError (List ℕ × Option (List ℕ))
  unfolding expect_state session_key verify_m1_prove_m2 prove
  handle_setup_m3 server m3 = do
    m ← map_err tlv8 (Map.parse m3)
    expect_state m state_m3
    a_pub ← ok_or (Map.get m tlv_public_key) (protocol "M3 missing controller public key A")
    m1 ← ok_or (Map.get m tlv_proof) (protocol "M3 missing controller proof M1")
    prove (session_key server a_pub) (verify_m1_prove_m2 server a_pub m1)

module _ (p : Primitives) where
  unfoldable pub m6_sub : ControllerKeypair → (accessory_x id : List ℕ) → List ℕ
  unfolding ltpk sign
  m6_sub keypair accessory_x id =
      let signature = sign p keypair ((accessory_x ++ id) ++ ltpk p keypair) in
      push (push (push [] tlv_identifier id) tlv_public_key (ltpk p keypair)) tlv_signature
        signature

  unfoldable pub build_m6 :
      ControllerKeypair → (accessory_id session_key enc_key : List ℕ) → Result DutError (List ℕ)
  unfolding hkdf32 m6_sub nonce_label chacha20poly1305_seal
  build_m6 keypair accessory_id session_key enc_key = do
    accessory_x ← hkdf32 p session_key accessory_sign_salt accessory_sign_info
    let sub = m6_sub keypair accessory_x accessory_id
    sealed ← map_err crypto (chacha20poly1305_seal p.chacha enc_key (nonce_label nonce_m6) [] sub)
    ok (push (push_u8 [] tlv_state state_m6) tlv_encrypted_data sealed)

  -- The controller's signature decides whether M6 brings the accessory's key or an error.
  unfoldable pub enrol :
      ControllerKeypair
      → (accessory_id session_key enc_key : List ℕ) → ControllerPairing
      → Result CryptoError (Unit {0})
      → Result DutError (List ℕ × Option ControllerPairing)
  unfolding build_m6 is_utf8
  enrol keypair accessory_id session_key enc_key pairing (ok verified) =
      if is_utf8 pairing.id
      then (do m6 ← build_m6 keypair accessory_id session_key enc_key; ok (m6, some pairing))
      else ok (error_m6, none)
  enrol keypair accessory_id session_key enc_key pairing (err e) = ok (error_m6, none)
  enrol keypair accessory_id session_key enc_key pairing stuck = stuck

  -- What the controller signs in M5.
  unfoldable pub m5_signed : (ios_device_x : List ℕ) → ControllerPairing → List ℕ
  m5_signed ios_device_x pairing = (ios_device_x ++ pairing.id) ++ pairing.ltpk

  unfoldable pub check_keys :
      ControllerKeypair
      → (accessory_id session_key enc_key controller_id : List ℕ)
      → (controller_ltpk signature : Option (List ℕ))
      → Result DutError (List ℕ × Option ControllerPairing)
  unfolding hkdf32 m5_signed verify_ed25519 enrol
  check_keys keypair accessory_id session_key enc_key controller_id (some key) (some signature) = do
    ios_device_x ← hkdf32 p session_key controller_sign_salt controller_sign_info
    let pairing : ControllerPairing = record { id = controller_id; ltpk = key }
    enrol keypair accessory_id session_key enc_key pairing
        (verify_ed25519 p key (m5_signed ios_device_x pairing) signature)
  check_keys keypair accessory_id session_key enc_key controller_id (some key) none =
      ok (error_m6, none)
  check_keys keypair accessory_id session_key enc_key controller_id none signature =
      ok (error_m6, none)

  unfoldable pub answer_m5 :
      ControllerKeypair
      → (accessory_id session_key enc_key : List ℕ) → Result CryptoError (List ℕ)
      → Result DutError (List ℕ × Option ControllerPairing)
  unfolding sized check_keys
  answer_m5 keypair accessory_id session_key enc_key (ok plaintext) = do
    sub ← map_err tlv8 (Map.parse plaintext)
    controller_id ← ok_or (Map.get sub tlv_identifier) (protocol "M5 sub-TLV missing identifier")
    check_keys keypair accessory_id session_key enc_key controller_id
        (sized 32 (Map.get sub tlv_public_key)) (sized 64 (Map.get sub tlv_signature))
  answer_m5 keypair accessory_id session_key enc_key (err e) = ok (error_m6, none)
  answer_m5 keypair accessory_id session_key enc_key stuck = stuck

  unfoldable pub handle_setup_m5 :
      (session_key : List ℕ)
      → ControllerKeypair
      → (accessory_id m5 : List ℕ) → Result DutError (List ℕ × Option ControllerPairing)
  unfolding expect_state hkdf32 chacha20poly1305_open nonce_label answer_m5
  handle_setup_m5 session_key keypair accessory_id m5 = do
    m ← map_err tlv8 (Map.parse m5)
    expect_state m state_m5
    encrypted ← ok_or (Map.get m tlv_encrypted_data) (protocol "M5 missing encrypted data")
    enc_key ← hkdf32 p session_key encrypt_salt encrypt_info
    answer_m5 keypair accessory_id session_key enc_key
        (chacha20poly1305_open p.chacha enc_key (nonce_label nonce_m5) [] encrypted)
