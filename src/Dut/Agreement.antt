-- ===== src/Dut/Agreement.antt =====
-- A whole Pair Verify between the client of crates/hap-crypto/src/pair_verify.rs and the accessory of
-- crates/hap-thread-dut/src/pairing.rs, up to the sessions that both ends open.
pub mod Sessions
use hap_rust.Common.{
  ℕ, ◌≡◌, refl, sym, ap, ◌∙◌, List, [], ◌∷◌, All, Option, none, some, ok, ok_or, found, present,
  map_err, then_ok, length, arith, from_le_bytes, to_le_bytes,
}
use mathlib.Core.Path.{subst}
use hap_rust.Tlv8.Map
use hap_rust.Tlv8.Map.{from_items, find_item, get_uint, decode_uint, get_u8}
use hap_rust.Tlv8.Writer.{push, push_u8}
use hap_rust.Tlv8.Types.{Item}
use hap_rust.Tlv8.RoundTrip.{IsStorable, push_all, parse-push_all}
use hap_rust.Crypto.Types.{
  kdf, tlv_identifier, tlv_public_key, tlv_encrypted_data, tlv_state, tlv_signature,
}
use hap_rust.Crypto.Aead.{hap_nonce, chacha20poly1305_seal, chacha20poly1305_open, encrypt, decrypt}
use hap_rust.Crypto.Primitives.{
  Primitives, PrimitiveLaws, ControllerKeypair, from_secret, hkdf_sha512, diffie_hellman, sign,
  verify_ed25519,
}
use hap_rust.Crypto.PairVerify.Types.{
  control_salt, control_read_info, control_write_info, event_salt, event_read_info, pv_encrypt_salt,
  pv_encrypt_info, nonce_m2, nonce_m3, SessionKeys, send, done, PairVerifyClient, build,
}
use hap_rust.Crypto.PairVerify.{
  handle, start, new_with_ephemeral, derive_key, session_keys, event_key, m2_signed,
}
use hap_rust.Crypto.PairVerify.Handshake.{
  sub_tlv, accessory_m2, m3_message, accessory_m4, waiting, stored, common_secret, handle_agrees,
  bytes_eq_refl, decrypt_ok, derive_ok, verify_ed25519-sign_with, parse-sub_tlv, handle_runs,
  with_secret, completed,
}
use hap_rust.Thread.Accessory.{DutError, crypto, tlv8, protocol}
use hap_rust.Dut.Hap.{nonce_label, hkdf32}
use hap_rust.Dut.Session.{AccessorySession}
use hap_rust.Dut.Verify.{
  VerifyInProgress, state_is, expect_state, sized, is_err, m2_sub, handle_m1, m3_signed, establish,
  authenticate, answer_m3, handle_m3,
}

pub parse_items :
    (is : List Item) → All IsStorable is → Map.parse (push_all [] is) ≡ ok (from_items is)
unfolding Map.parse
parse_items is fits = then_ok (λ x. ok (from_items x)) (parse-push_all is fits) refl

pub sized_ok : (n : ℕ) (bytes : List ℕ) → length bytes ≡ n → sized n (some bytes) ≡ some bytes
unfolding sized
sized_ok n bytes e = ground (arith, e)

module _ (p : Primitives) (laws : PrimitiveLaws p) where
  pub hkdf32_ok :
      (shared salt info key : List ℕ)
      → derive_key p shared salt info ≡ ok key
      → hkdf32 p shared salt info ≡ ok key
  unfolding derive_key hkdf_sha512 hkdf32
  hkdf32_ok shared salt info key e = found (protocol "HKDF expand failed") (
      present (kdf "requested output length exceeds 255 * HashLen")
        (p.hkdf_expand shared salt info 32) e)

  seal_m2_ok :
      (keypair : ControllerKeypair) (id csecret asecret key encrypted : List ℕ)
      → p.chacha.seal key (hap_nonce nonce_m2) [] (
          sub_tlv p keypair.signing id (m2_signed p (p.dh_public asecret) id (p.dh_public csecret)))
        ≡ some encrypted
      → chacha20poly1305_seal p.chacha key
          (nonce_label nonce_m2)
          []
          (m2_sub p keypair (p.dh_public asecret) id (p.dh_public csecret))
        ≡ ok encrypted
  unfolding chacha20poly1305_seal encrypt hap_nonce nonce_label m2_sub sign m2_signed
  seal_m2_ok keypair id csecret asecret key encrypted e = found _ e

  pub handle_m1_ok :
      (keypair : ControllerKeypair) (id csecret asecret key encrypted : List ℕ)
      → hkdf32 p (common_secret p laws asecret csecret) pv_encrypt_salt pv_encrypt_info ≡ ok key
      → p.chacha.seal key (hap_nonce nonce_m2) [] (
          sub_tlv p keypair.signing id (m2_signed p (p.dh_public asecret) id (p.dh_public csecret)))
        ≡ some encrypted
      → handle_m1 p keypair id asecret
          (push (push_u8 [] tlv_state 1) tlv_public_key (p.dh_public csecret))
        ≡ ok (
          accessory_m2 p (p.dh_public asecret) encrypted,
          record {
            accessory_eph_pub = p.dh_public asecret;
            controller_eph_pub = p.dh_public csecret;
            shared = common_secret p laws asecret csecret;
            pv_key = key;
          },
        )
  unfolding handle_m1 push_all push_u8 to_le_bytes expect_state state_is Map.get get_u8 get_uint
      decode_uint find_item from_items from_le_bytes from_secret diffie_hellman
  handle_m1_ok keypair id csecret asecret key encrypted k e =
      let eph = p.dh_public csecret in
      then_ok _
        (ap (map_err tlv8)
          (parse_items ((tlv_state, 1 ∷ []) ∷ (tlv_public_key, eph) ∷ []) (omega arith)))
        (then_ok _ (found _ (sized_ok 32 eph (laws.dh_public_len csecret))) (
          then_ok _ k (
            then_ok _ (ap (map_err crypto) (seal_m2_ok keypair id csecret asecret key encrypted e))
              refl)))

  open_m3_ok :
      (key sealed m : List ℕ)
      → p.chacha.seal key (hap_nonce nonce_m3) [] m ≡ some sealed
      → chacha20poly1305_open p.chacha key (nonce_label nonce_m3) [] sealed ≡ ok m
  unfolding chacha20poly1305_open hap_nonce nonce_label
  open_m3_ok key sealed m e = decrypt_ok p laws key (hap_nonce nonce_m3) m sealed e

  module _ (progress : VerifyInProgress) where
    -- What the controller puts into M3.
    abbrev pub m3_sub : ControllerKeypair → List ℕ
    m3_sub c = sub_tlv p c.signing c.id (m3_signed p progress c.id)

    authenticate_ok :
        (c : ControllerKeypair)
        → authenticate p progress c.id
            (p.verifying_key c.signing)
            c.id
            (some (p.sign_with c.signing (m3_signed p progress c.id)))
          ≡ establish p progress.shared
    unfolding authenticate
    authenticate_ok c =
        rw
          (
            bytes_eq_refl c.id,
            verify_ed25519-sign_with p laws c.signing _ (m3_signed p progress c.id) refl,
          )
          refl

    answer_m3_ok :
        (c : ControllerKeypair)
        → answer_m3 p progress c.id (p.verifying_key c.signing) (ok (m3_sub c))
          ≡ establish p progress.shared
    unfolding answer_m3 Map.get find_item from_items
    answer_m3_ok c =
        let signature = p.sign_with c.signing (m3_signed p progress c.id) in
        then_ok _
          (ap (map_err tlv8) (parse-sub_tlv p laws c.signing c.id (m3_signed p progress c.id)))
          (ap (authenticate p progress c.id (p.verifying_key c.signing) c.id)
              (sized_ok 64 signature (laws.signature_len c.signing (m3_signed p progress c.id)))
            ∙ authenticate_ok c)

    pub handle_m3_ok :
        (c : ControllerKeypair) (sealed : List ℕ)
        → p.chacha.seal progress.pv_key (hap_nonce nonce_m3) [] (m3_sub c) ≡ some sealed
        → handle_m3 p progress c.id (p.verifying_key c.signing) (m3_message p laws sealed)
          ≡ establish p progress.shared
    unfolding handle_m3 push_all push_u8 to_le_bytes expect_state state_is Map.get get_u8 get_uint
        decode_uint find_item from_items from_le_bytes
    handle_m3_ok c sealed e =
        then_ok _
          (ap (map_err tlv8)
            (parse_items ((tlv_state, 3 ∷ []) ∷ (tlv_encrypted_data, sealed) ∷ []) (omega arith)))
          (ap (answer_m3 p progress c.id (p.verifying_key c.signing))
              (open_m3_ok progress.pv_key sealed (m3_sub c) e)
            ∙ answer_m3_ok c)
