-- ===== src/Dut/Verify/Safety.antt =====
-- When the accessory opens a session: only for the controller that is paired with it.
use hap_rust.Common.{
  ℕ, ◌≡◌, refl, ap, List, [], ◌++◌, Option, none, some, Result, ok, err, stuck, ok_or, map_err,
  both_steps, ok-injective, Bool, true, false, not, ◌||◌, Bool-cases, inl, inr,
}
use mathlib.Core.Path.{subst}
use hap_rust.Tlv8.Map
use hap_rust.Crypto.Types.{CryptoError, tlv_identifier, tlv_encrypted_data, tlv_signature}
use hap_rust.Crypto.Aead.{chacha20poly1305_open}
use hap_rust.Crypto.Primitives.{Primitives, verify_ed25519}
use hap_rust.Crypto.PairVerify.Types.{
  control_salt, control_read_info, control_write_info, event_salt, event_read_info, nonce_m3,
  state_m3,
}
use hap_rust.Crypto.PairVerify.{bytes_eq}
use hap_rust.Crypto.PairVerify.Safety.{bytes_eq→≡}
use hap_rust.Thread.Accessory.{tlv8, protocol}
use hap_rust.Dut.Hap.{nonce_label, hkdf32}
use hap_rust.Dut.Session.{AccessorySession}
use hap_rust.Dut.Verify.{
  VerifyInProgress, expect_state, sized, is_err, m3_signed, establish, authenticate, answer_m3,
  handle_m3,
}

authentic : (a b : Bool) → (not a || b) ≡ false → (a ≡ true) × (b ≡ false)
authentic true true e = cc
authentic true false e = (refl, refl)
authentic false b e = cc

some_injective :
    (a b : AccessorySession) → ◌≡◌ {A = Option AccessorySession} (some a) (some b) → a ≡ b
some_injective a b e = cc

not_err : (r : Result CryptoError (Unit {0})) → is_err r ≡ false → r ≡ ok tt
not_err (ok tt) e = refl
not_err (err x) e = cc
not_err stuck e = cc

module _ (p : Primitives) (progress : VerifyInProgress) where
  -- The keys of the session are derived from the secret of the exchange, and its counters are zero.
  pub record IsKeyed (s : AccessorySession) : Type 0 where
    pub read : hkdf32 p progress.shared control_salt control_read_info ≡ ok s.read_key
    pub write : hkdf32 p progress.shared control_salt control_write_info ≡ ok s.write_key
    pub event : hkdf32 p progress.shared event_salt event_read_info ≡ ok s.event_key
    pub recv : s.recv_ctr ≡ 0
    pub sent : s.send_ctr ≡ 0
    pub events : s.event_ctr ≡ 0

  module _ (controller_id controller_ltpk : List ℕ) where
    -- The controller that is paired has signed both ephemeral keys of this exchange.
    abbrev pub IsAuthentic : (signature : List ℕ) → Type 0
    IsAuthentic signature =
        verify_ed25519 p controller_ltpk
          ((progress.controller_eph_pub ++ controller_id) ++ progress.accessory_eph_pub) signature
        ≡ ok tt

    establish-IsKeyed :
        (m4 : List ℕ) (s : AccessorySession)
        → establish p progress.shared ≡ ok (m4, some s)
        → IsKeyed s
    unfolding establish
    establish-IsKeyed m4 s e =
        let (read_key, r, e1) =
          both_steps _ (hkdf32 p progress.shared control_salt control_read_info) e in
        let (write_key, w, e2) =
          both_steps _ (hkdf32 p progress.shared control_salt control_write_info) e1 in
        let (event_key, v, e3) =
          both_steps _ (hkdf32 p progress.shared event_salt event_read_info) e2 in
        subst (λ x. IsKeyed x) (some_injective _ _ (ap (λ t. t.1) (ok-injective _ _ e3)))
          (record { read = r; write = w; event = v; recv = refl; sent = refl; events = refl })

    authenticate-IsAuthentic :
        (identifier : List ℕ) (o : Option (List ℕ)) (m4 : List ℕ) (s : AccessorySession)
        → authenticate p progress controller_id controller_ltpk identifier o ≡ ok (m4, some s)
        → (signature : List ℕ) × IsAuthentic signature × IsKeyed s
    unfolding authenticate m3_signed
    authenticate-IsAuthentic identifier none m4 s e = cc
    authenticate-IsAuthentic identifier (some signature) m4 s e =
        let verified =
          verify_ed25519 p controller_ltpk (m3_signed p progress identifier) signature in
        let refused = not (bytes_eq identifier controller_id) || is_err verified in
        elim (Bool-cases refused) [
          | inl t ↦ let e' = rw t at e in cc
          | inr f ↦
              let (same, valid) =
                authentic (bytes_eq identifier controller_id) (is_err verified) f in
              let e' = rw f at e in
              (
                signature,
                subst
                    (λ x.
                      verify_ed25519 p controller_ltpk (m3_signed p progress x) signature ≡ ok tt)
                    (bytes_eq→≡ identifier controller_id same) (not_err verified valid),
                establish-IsKeyed m4 s e',
              )
        ]

    answer_m3-IsAuthentic :
        (r : Result CryptoError (List ℕ)) (m4 : List ℕ) (s : AccessorySession)
        → answer_m3 p progress controller_id controller_ltpk r ≡ ok (m4, some s)
        → (signature : List ℕ) × IsAuthentic signature × IsKeyed s
    unfolding answer_m3
    answer_m3-IsAuthentic (ok plaintext) m4 s e =
        let (sub, _, e1) = both_steps _ (map_err tlv8 (Map.parse plaintext)) e in
        let (identifier, _, e2) =
          both_steps _
            (ok_or (Map.get sub tlv_identifier) (protocol "M3 sub-TLV missing identifier")) e1 in
        authenticate-IsAuthentic identifier (sized 64 (Map.get sub tlv_signature)) m4 s e2
    answer_m3-IsAuthentic (err x) m4 s e = cc
    answer_m3-IsAuthentic stuck m4 s e = cc

    -- The accessory answers M3 with a session only where the controller's stored key verifies a
    -- signature over both ephemeral keys of this exchange and the identifier of the controller that is
    -- paired; the keys of the session come from the shared secret, and its counters are zero.
    pub handle_m3-IsAuthentic :
        (m3 m4 : List ℕ) (s : AccessorySession)
        → handle_m3 p progress controller_id controller_ltpk m3 ≡ ok (m4, some s)
        → (signature : List ℕ) × IsAuthentic signature × IsKeyed s
    unfolding handle_m3
    handle_m3-IsAuthentic m3 m4 s e =
        let (m, _, e1) = both_steps _ (map_err tlv8 (Map.parse m3)) e in
        let (_, _, e2) = both_steps _ (expect_state m state_m3) e1 in
        let (encrypted, _, e3) =
          both_steps _ (ok_or (Map.get m tlv_encrypted_data) (protocol "M3 missing encrypted data"))
            e2 in
        answer_m3-IsAuthentic
          (chacha20poly1305_open p.chacha progress.pv_key (nonce_label nonce_m3) [] encrypted) m4 s
          e3
