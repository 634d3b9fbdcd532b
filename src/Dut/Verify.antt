-- ===== src/Dut/Verify.antt =====
-- crates/hap-thread-dut/src/pairing.rs: the accessory's side of Pair Verify. The secret of its ephemeral
-- key is an argument.
pub mod Safety
use hap_rust.Common.{
  ℕ, List, [], ◌∷◌, ◌++◌, Option, none, some, Result, ok, err, stuck, ◌>>=◌, ◌>>◌, ok_or, map_err,
  length, Bool, true, false, not, ◌||◌, ◌==◌, if◌then◌else◌,
}
use hap_rust.Tlv8.Map
use hap_rust.Tlv8.Map.{Tlv8Map}
use hap_rust.Tlv8.Writer.{push, push_u8}
use hap_rust.Crypto.Types.{
  CryptoError, tlv_identifier, tlv_public_key, tlv_encrypted_data, tlv_state, tlv_error,
  tlv_signature,
}
use hap_rust.Crypto.Aead.{chacha20poly1305_seal, chacha20poly1305_open}
use hap_rust.Crypto.Primitives.{
  Primitives, ControllerKeypair, from_secret, diffie_hellman, sign, verify_ed25519,
}
use hap_rust.Crypto.PairVerify.Types.{
  pv_encrypt_salt, pv_encrypt_info, control_salt, control_read_info, control_write_info, event_salt,
  event_read_info, nonce_m2, nonce_m3, state_m1, state_m2, state_m3, state_m4,
}
use hap_rust.Crypto.PairVerify.{bytes_eq}
use hap_rust.Thread.Accessory.{DutError, crypto, tlv8, protocol}
use hap_rust.Dut.Hap.{error_authentication, nonce_label, hkdf32}
use hap_rust.Dut.Session.{AccessorySession, new}

pub record VerifyInProgress : Type 0 where
  pub accessory_eph_pub : List ℕ
  pub controller_eph_pub : List ℕ
  pub shared : List ℕ
  pub pv_key : List ℕ

-- A message that lacks its state is refused here.
unfoldable pub state_is : ℕ → Option ℕ → Result DutError (Unit {0})
state_is want none = err (protocol "unexpected pairing State")
state_is want (some s) = if s == want then ok tt else err (protocol "unexpected pairing State")

unfoldable pub expect_state : Tlv8Map → ℕ → Result DutError (Unit {0})
unfolding state_is
expect_state m want = map_err tlv8 (Map.get_u8 m tlv_state) >>= state_is want

unfoldable pub error_m4 : List ℕ
error_m4 = push_u8 (push_u8 [] tlv_state state_m4) tlv_error error_authentication

-- `and_then(|s| s.try_into().ok())`
unfoldable pub sized : ℕ → Option (List ℕ) → Option (List ℕ)
sized n none = none
sized n (some bytes) = if length bytes == n then some bytes else none

abbrev pub is_err : {A : Type 0} → Result CryptoError A → Bool
is_err (ok a) = false
is_err (err e) = true
is_err stuck = true

module _ (p : Primitives) where
  unfoldable pub m2_sub : ControllerKeypair → (eph id controller_eph : List ℕ) → List ℕ
  unfolding sign
  m2_sub keypair eph id controller_eph =
      let signature = sign p keypair ((eph ++ id) ++ controller_eph) in
      push (push [] tlv_identifier id) tlv_signature signature

  unfoldable pub handle_m1 :
      ControllerKeypair
      → (accessory_id secret m1 : List ℕ) → Result DutError (List ℕ × VerifyInProgress)
  unfolding expect_state sized from_secret diffie_hellman hkdf32 m2_sub nonce_label
      chacha20poly1305_seal
  handle_m1 keypair accessory_id secret m1 = do
    m ← map_err tlv8 (Map.parse m1)
    expect_state m state_m1
    eph_bytes ← ok_or (Map.get m tlv_public_key) (protocol "M1 missing controller ephemeral key")
    controller_eph ← ok_or (sized 32 (some eph_bytes)) (protocol "M1 ephemeral key not 32 bytes")
    let accessory_eph = from_secret p secret
    let shared = diffie_hellman p accessory_eph controller_eph
    pv_key ← hkdf32 p shared pv_encrypt_salt pv_encrypt_info
    let sub = m2_sub keypair accessory_eph.public_key accessory_id controller_eph
    sealed ← map_err crypto (chacha20poly1305_seal p.chacha pv_key (nonce_label nonce_m2) [] sub)
    let head = push (push_u8 [] tlv_state state_m2) tlv_public_key accessory_eph.public_key
    ok (
      push head tlv_encrypted_data sealed,
      record {
        accessory_eph_pub = accessory_eph.public_key;
        controller_eph_pub = controller_eph;
        shared = shared;
        pv_key = pv_key;
      },
    )

  -- What the controller signs in M3.
  unfoldable pub m3_signed : VerifyInProgress → List ℕ → List ℕ
  m3_signed progress identifier =
      (progress.controller_eph_pub ++ identifier) ++ progress.accessory_eph_pub

  -- The session keys of an authenticated controller, and M4.
  unfoldable pub establish : (shared : List ℕ) → Result DutError (List ℕ × Option AccessorySession)
  unfolding hkdf32
  establish shared = do
    read_key ← hkdf32 p shared control_salt control_read_info
    write_key ← hkdf32 p shared control_salt control_write_info
    event_key ← hkdf32 p shared event_salt event_read_info
    ok (push_u8 [] tlv_state state_m4, some (new read_key write_key event_key))

  -- A failure of authentication is answered in M4.
  unfoldable pub authenticate :
      VerifyInProgress
      → (controller_id controller_ltpk identifier : List ℕ) → Option (List ℕ)
      → Result DutError (List ℕ × Option AccessorySession)
  unfolding m3_signed verify_ed25519 establish
  authenticate progress controller_id controller_ltpk identifier none = ok (error_m4, none)
  authenticate progress controller_id controller_ltpk identifier (some signature) =
      let verified = verify_ed25519 p controller_ltpk (m3_signed progress identifier) signature in
      if not (bytes_eq identifier controller_id) || is_err verified
      then ok (error_m4, none)
      else establish progress.shared

  -- The decrypted part of M3, where it decrypts.
  unfoldable pub answer_m3 :
      VerifyInProgress
      → (controller_id controller_ltpk : List ℕ) → Result CryptoError (List ℕ)
      → Result DutError (List ℕ × Option AccessorySession)
  unfolding sized authenticate
  answer_m3 progress controller_id controller_ltpk (ok plaintext) = do
    sub ← map_err tlv8 (Map.parse plaintext)
    identifier ← ok_or (Map.get sub tlv_identifier) (protocol "M3 sub-TLV missing identifier")
    authenticate progress controller_id controller_ltpk identifier
        (sized 64 (Map.get sub tlv_signature))
  answer_m3 progress controller_id controller_ltpk (err e) = ok (error_m4, none)
  answer_m3 progress controller_id controller_ltpk stuck = stuck

  unfoldable pub handle_m3 :
      VerifyInProgress
      → (controller_id controller_ltpk m3 : List ℕ)
      → Result DutError (List ℕ × Option AccessorySession)
  unfolding expect_state chacha20poly1305_open nonce_label answer_m3
  handle_m3 progress controller_id controller_ltpk m3 = do
    m ← map_err tlv8 (Map.parse m3)
    expect_state m state_m3
    encrypted ← ok_or (Map.get m tlv_encrypted_data) (protocol "M3 missing encrypted data")
    answer_m3 progress controller_id controller_ltpk
        (chacha20poly1305_open p.chacha progress.pv_key (nonce_label nonce_m3) [] encrypted)
