-- ===== src/Dut/Setup/Safety.antt =====
-- Which controllers the accessory enrols: those that have proved the setup code, and that have signed
-- with the key that they bring.
use hap_rust.Common.{
  ℕ, ◌≡◌, refl, sym, ap, ◌∙◌, List, [], ◌++◌, Option, none, some, Result, ok, err, stuck, ok_or,
  map_err, both_steps, ok-injective, present, true, Bool-cases, inl, inr, length, ==_iff,
  guard-eq-ok, is_utf8, guard, arith,
}
use mathlib.Core.Path.{subst}
use hap_rust.Tlv8.Map
use hap_rust.Tlv8.Map.{Tlv8Map}
use hap_rust.Tlv8.Types.{Tlv8Error}
use hap_rust.Crypto.Types.{
  CryptoError, tlv_identifier, tlv_public_key, tlv_proof, tlv_encrypted_data, tlv_signature,
  srp_proof_mismatch,
}
use hap_rust.Crypto.Aead.{chacha20poly1305_open}
use hap_rust.Crypto.Primitives.{Primitives, ControllerKeypair, verify_ed25519}
use hap_rust.Crypto.Srp.{Arithmetic, SrpServer, server_session_key, proof_m1}
use hap_rust.Crypto.Srp
use hap_rust.Crypto.PairVerify.{bytes_eq}
use hap_rust.Crypto.PairVerify.Types.{state_m3}
use hap_rust.Crypto.PairVerify.Safety.{bytes_eq→≡}
use hap_rust.Crypto.PairSetup.Types.{
  encrypt_salt, encrypt_info, controller_sign_salt, controller_sign_info, nonce_m5, state_m5,
}
use hap_rust.Thread.Accessory.{tlv8, protocol}
use hap_rust.Dut.Hap.{nonce_label, hkdf32}
use hap_rust.Dut.Verify.{expect_state, sized}
use hap_rust.Dut.Setup.{
  ControllerPairing, session_key, verify_m1_prove_m2, prove, handle_setup_m3, build_m6, enrol,
  m5_signed, check_keys, answer_m5, handle_setup_m5,
}

-- The message carries a public key, from which the session key is derived, and the SRP proof of that key.
pub record IsProved (z : Arithmetic) (server : SrpServer) (m3 key : List ℕ) : Type 0 where
  pub message : Tlv8Map
  pub parsed : Map.parse m3 ≡ ok message
  pub a_pub : List ℕ
  pub sent_key : Map.get message tlv_public_key ≡ some a_pub
  pub derived : server_session_key z server (z.from_bytes_be a_pub) ≡ ok key
  pub proof :
      Map.get message tlv_proof
      ≡ some (
          proof_m1 z server.group server.username server.salt
            (z.from_bytes_be a_pub)
            server.b_pub
            key)

-- The pairing is signed under its own key, with a secret of the session.
pub record IsSigned (p : Primitives) (key : List ℕ) (pairing : ControllerPairing) : Type 0 where
  pub ios_device_x : List ℕ
  pub derived : hkdf32 p key controller_sign_salt controller_sign_info ≡ ok ios_device_x
  pub signature : List ℕ
  pub verified :
      verify_ed25519 p pairing.ltpk ((ios_device_x ++ pairing.id) ++ pairing.ltpk) signature ≡ ok tt
  pub text : is_utf8 pairing.id ≡ true
  pub long : length pairing.ltpk ≡ 32

length-sized :
    (n : ℕ) (o : Option (List ℕ)) (bytes : List ℕ) → sized n o ≡ some bytes → length bytes ≡ n
unfolding sized
length-sized n none bytes e = cc
length-sized n (some bs) bytes e = ground (arith, ==_iff (length bs) n, e)

module _ (z : Arithmetic) (server : SrpServer) where
  parsed_ok : (r : Result Tlv8Error Tlv8Map) {m : Tlv8Map} → map_err tlv8 r ≡ ok m → r ≡ ok m
  parsed_ok (ok x) e = ap ok (ok-injective _ _ e)
  parsed_ok (err x) e = cc
  parsed_ok stuck e = cc

  proved :
      (a_pub m1 proof key : List ℕ)
      → verify_m1_prove_m2 z server a_pub m1 ≡ ok proof
      → session_key z server a_pub ≡ ok key
      → (server_session_key z server (z.from_bytes_be a_pub) ≡ ok key)
        × (m1
            ≡ proof_m1 z server.group server.username server.salt
                (z.from_bytes_be a_pub)
                server.b_pub
                key)
  unfolding verify_m1_prove_m2 session_key Srp.verify_m1_prove_m2
  proved a_pub m1 proof key e k =
      let a = z.from_bytes_be a_pub in
      let (again, d, e1) = both_steps _ (server_session_key z server a) e in
      let sent = proof_m1 z server.group server.username server.salt a server.b_pub again in
      let (_, checked, _) = both_steps _ (guard (bytes_eq sent m1) srp_proof_mismatch) e1 in
      let same : again ≡ key = ok-injective {E = CryptoError} _ _ (sym d ∙ k) in
      (
        k,
        sym (bytes_eq→≡ sent m1 (guard-eq-ok _ _ checked))
            ∙ ap (proof_m1 z server.group server.username server.salt a server.b_pub) same,
      )

  prove-some :
      (r s : Result CryptoError (List ℕ)) (m4 key : List ℕ)
      → prove z r s ≡ ok (m4, some key)
      → (proof : List ℕ) × (r ≡ ok key) × (s ≡ ok proof)
  unfolding prove
  prove-some (ok k) (ok proof) m4 key e =
      let same : some k ≡ some key = ap (λ t. t.1) (ok-injective _ _ e) in (proof, cc, refl)
  prove-some (ok k) (err x) m4 key e = cc
  prove-some (ok k) stuck m4 key e = cc
  prove-some (err x) s m4 key e = cc
  prove-some stuck s m4 key e = cc

  handle_setup_m3-IsProved :
      (m3 m4 key : List ℕ)
      → handle_setup_m3 z server m3 ≡ ok (m4, some key)
      → IsProved z server m3 key
  unfolding handle_setup_m3
  handle_setup_m3-IsProved m3 m4 key e =
      let (m, parsed, e1) = both_steps _ (map_err tlv8 (Map.parse m3)) e in
      let (_, _, e2) = both_steps _ (expect_state m state_m3) e1 in
      let (a_pub, sent_key, e3) =
        both_steps _
          (ok_or (Map.get m tlv_public_key) (protocol "M3 missing controller public key A")) e2 in
      let (m1, sent_proof, e4) =
        both_steps _ (ok_or (Map.get m tlv_proof) (protocol "M3 missing controller proof M1")) e3 in
      let (proof, k, v) =
        prove-some (session_key z server a_pub) (verify_m1_prove_m2 z server a_pub m1) m4 key e4 in
      let (derived, same) = proved a_pub m1 proof key v k in
      record {
        message = m;
        parsed = parsed_ok (Map.parse m3) parsed;
        a_pub = a_pub;
        sent_key = present _ (Map.get m tlv_public_key) sent_key;
        derived = derived;
        proof = present _ (Map.get m tlv_proof) sent_proof ∙ ap some same;
      }

module _ (p : Primitives) (keypair : ControllerKeypair) (accessory_id key : List ℕ) where
  enrol-some :
      (enc_key : List ℕ) (made pairing : ControllerPairing) (m6 : List ℕ)
      (r : Result CryptoError (Unit {0}))
      → enrol p keypair accessory_id key enc_key made r ≡ ok (m6, some pairing)
      → (r ≡ ok tt) × (is_utf8 made.id ≡ true) × (made ≡ pairing)
  unfolding enrol
  enrol-some enc_key made pairing m6 (ok tt) e = elim (Bool-cases (is_utf8 made.id)) [
    | inl t ↦
        let e' = rw t at e in
        let (out, _, e1) = both_steps _ (build_m6 p keypair accessory_id key enc_key) e' in
        let same : some made ≡ some pairing = ap (λ x. x.1) (ok-injective _ _ e1) in (refl, t, cc)
    | inr f ↦ let e' = rw f at e in cc
  ]
  enrol-some enc_key made pairing m6 (err x) e = cc
  enrol-some enc_key made pairing m6 stuck e = cc

  check_keys-IsSigned :
      (enc_key controller_id : List ℕ) (k s : Option (List ℕ)) (m6 : List ℕ)
      (pairing : ControllerPairing)
      → ((bytes : List ℕ) → k ≡ some bytes → length bytes ≡ 32)
      → check_keys p keypair accessory_id key enc_key controller_id k s ≡ ok (m6, some pairing)
      → IsSigned p key pairing
  unfolding check_keys m5_signed
  check_keys-IsSigned enc_key controller_id (some ltpk) (some signature) m6 pairing long e =
      let (x, d, e1) = both_steps _ (hkdf32 p key controller_sign_salt controller_sign_info) e in
      let made : ControllerPairing = record { id = controller_id; ltpk = ltpk } in
      let (verified, text, same) =
        enrol-some enc_key made pairing m6 (verify_ed25519 p ltpk (m5_signed p x made) signature)
          e1 in
      subst (IsSigned p key) same (record {
        ios_device_x = x;
        derived = d;
        signature = signature;
        verified = verified;
        text = text;
        long = long ltpk refl;
      })
  check_keys-IsSigned enc_key controller_id (some ltpk) none m6 pairing long e = cc
  check_keys-IsSigned enc_key controller_id none s m6 pairing long e = cc

  answer_m5-IsSigned :
      (enc_key : List ℕ) (r : Result CryptoError (List ℕ)) (m6 : List ℕ)
      (pairing : ControllerPairing)
      → answer_m5 p keypair accessory_id key enc_key r ≡ ok (m6, some pairing)
      → IsSigned p key pairing
  unfolding answer_m5
  answer_m5-IsSigned enc_key (ok plaintext) m6 pairing e =
      let (sub, _, e1) = both_steps _ (map_err tlv8 (Map.parse plaintext)) e in
      let (id, _, e2) =
        both_steps _ (ok_or (Map.get sub tlv_identifier) (protocol "M5 sub-TLV missing identifier"))
          e1 in
      check_keys-IsSigned enc_key id (sized 32 (Map.get sub tlv_public_key))
        (sized 64 (Map.get sub tlv_signature)) m6 pairing
        (length-sized 32 (Map.get sub tlv_public_key)) e2
  answer_m5-IsSigned enc_key (err x) m6 pairing e = cc
  answer_m5-IsSigned enc_key stuck m6 pairing e = cc

  handle_setup_m5-IsSigned :
      (m5 m6 : List ℕ) (pairing : ControllerPairing)
      → handle_setup_m5 p key keypair accessory_id m5 ≡ ok (m6, some pairing)
      → IsSigned p key pairing
  unfolding handle_setup_m5
  handle_setup_m5-IsSigned m5 m6 pairing e =
      let (m, _, e1) = both_steps _ (map_err tlv8 (Map.parse m5)) e in
      let (_, _, e2) = both_steps _ (expect_state m state_m5) e1 in
      let (encrypted, _, e3) =
        both_steps _ (ok_or (Map.get m tlv_encrypted_data) (protocol "M5 missing encrypted data"))
          e2 in
      let (enc_key, _, e4) = both_steps _ (hkdf32 p key encrypt_salt encrypt_info) e3 in
      answer_m5-IsSigned enc_key
        (chacha20poly1305_open p.chacha enc_key (nonce_label nonce_m5) [] encrypted) m6 pairing e4

-- A controller is enrolled only where its M3 carries the SRP proof of the session key that the server
-- derives from the public key in M3, and if it has signed in M5, with the key that it brings, its identifier, that
-- key and a secret of the session. The key has 32 bytes and the identifier is a string.
pub handle_setup_m5_enrols :
    (p : Primitives) (z : Arithmetic) (server : SrpServer) (keypair : ControllerKeypair)
    (accessory_id m3 m4 key m5 m6 : List ℕ) (pairing : ControllerPairing)
    → handle_setup_m3 z server m3 ≡ ok (m4, some key)
    → handle_setup_m5 p key keypair accessory_id m5 ≡ ok (m6, some pairing)
    → IsProved z server m3 key × IsSigned p key pairing
handle_setup_m5_enrols p z server keypair accessory_id m3 m4 key m5 m6 pairing first second = (
  handle_setup_m3-IsProved z server m3 m4 key first,
  handle_setup_m5-IsSigned p keypair accessory_id key m5 m6 pairing second,
)
