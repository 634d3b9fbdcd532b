-- ===== src/Dut/Agreement/Sessions.antt =====
-- Pair Verify from M1 to M4 on both ends, and the two CoAP sessions that come of it.
use hap_rust.Common.{ℕ, ◌≡◌, refl, ap, ◌∙◌, List, [], some, ok, both_steps, then_ok, ok-injective}
use hap_rust.Crypto.Aead.{hap_nonce}
use hap_rust.Crypto.Primitives.{Primitives, PrimitiveLaws, ControllerKeypair, ltpk, from_secret}
use hap_rust.Crypto.PairVerify.Types.{
  control_salt, control_read_info, control_write_info, event_salt, event_read_info, pv_encrypt_salt,
  pv_encrypt_info, nonce_m2, nonce_m3, SessionKeys, send, done, PairVerifyClient, build,
}
use hap_rust.Crypto.PairVerify.{
  handle, start, new_with_ephemeral, derive_key, session_keys, event_key, m2_signed, m3_signed,
}
use hap_rust.Crypto.PairVerify.Handshake.{
  sub_tlv, accessory_m2, m3_message, accessory_m4, waiting, stored, common_secret, derive_ok,
  handle_runs, with_secret, completed,
}
use hap_rust.Thread.Session.{new as new_controller}
use hap_rust.Dut.Session.{AccessorySession, new as new_accessory}
use hap_rust.Dut.Session.Lockstep.{InStep}
use hap_rust.Dut.Verify.{
  m3_signed as accessory_m3_signed, VerifyInProgress, handle_m1, handle_m3, establish,
}
use hap_rust.Dut.Agreement.{hkdf32_ok, handle_m1_ok, handle_m3_ok}

module _ (p : Primitives) (laws : PrimitiveLaws p) where
  session_keys_derived :
      (shared : List ℕ) (keys : SessionKeys)
      → session_keys p shared ≡ ok keys
      → (derive_key p shared control_salt control_read_info ≡ ok keys.read_key)
        × (derive_key p shared control_salt control_write_info ≡ ok keys.write_key)
  unfolding session_keys
  session_keys_derived shared keys e =
      let (r, er, e1) = both_steps _ (derive_key p shared control_salt control_read_info) e in
      let (w, ew, e2) = both_steps _ (derive_key p shared control_salt control_write_info) e1 in
      let same = ok-injective _ _ e2 in
      (er ∙ ap (λ k. ok k.read_key) same, ew ∙ ap (λ k. ok k.write_key) same)

  establish_ok :
      (shared r w v : List ℕ)
      → derive_key p shared control_salt control_read_info ≡ ok r
      → derive_key p shared control_salt control_write_info ≡ ok w
      → derive_key p shared event_salt event_read_info ≡ ok v
      → establish p shared ≡ ok (accessory_m4 p laws, some (new_accessory r w v))
  unfolding establish
  establish_ok shared r w v er ew ev = then_ok _ (hkdf32_ok p laws shared _ _ r er) (
      then_ok _ (hkdf32_ok p laws shared _ _ w ew)
        (then_ok _ (hkdf32_ok p laws shared _ _ v ev) refl))

  -- A run of Pair Verify between a client and an accessory that store each other's keys: the four
  -- messages, and what each side holds at the end.
  pub record IsVerified (controller accessory : ControllerKeypair) (csecret asecret : List ℕ)
      : Type 0 where
    pub m2 : List ℕ
    pub m3 : List ℕ
    pub m4 : List ℕ
    pub progress : VerifyInProgress
    pub c2 : PairVerifyClient
    pub c3 : PairVerifyClient
    pub keys : SessionKeys
    pub events : List ℕ
    pub session : AccessorySession
    pub first :
        handle_m1 p accessory accessory.id asecret
          (start p (
            new_with_ephemeral p controller
              (stored p laws accessory.id accessory.signing)
              csecret)).0
        ≡ ok (m2, progress)
    pub second :
        handle p
          (waiting p laws controller (stored p laws accessory.id accessory.signing) csecret)
          m2
        ≡ (ok (send m3), c2)
    pub third : handle_m3 p progress controller.id (ltpk p controller) m3 ≡ ok (m4, some session)
    pub fourth : handle p c2 m4 ≡ (ok (done keys), c3)
    pub event : event_key p c3 ≡ ok events
    pub together : InStep (record { controller = new_controller keys events; accessory = session })

  -- A client and an accessory that store each other's long-term keys always verify each other, where
  -- the cipher takes both sub-TLVs: M1 is answered by M2, M2 by M3, M3 by M4, and M4 ends the run on
  -- the client's side; the client's CoAP session then has the read, write and event keys of the
  -- accessory's, and both count from zero.
  pub verifies-IsVerified :
      (controller accessory : ControllerKeypair) (csecret asecret key encrypted sealed : List ℕ)
      → derive_key p (common_secret p laws asecret csecret) pv_encrypt_salt pv_encrypt_info ≡ ok key
      → p.chacha.seal key (hap_nonce nonce_m2) [] (
          sub_tlv p accessory.signing accessory.id
            (m2_signed p (p.dh_public asecret) accessory.id (p.dh_public csecret)))
        ≡ some encrypted
      → p.chacha.seal key (hap_nonce nonce_m3) [] (
          sub_tlv p controller.signing controller.id
            (m3_signed p (p.dh_public csecret) controller.id (p.dh_public asecret)))
        ≡ some sealed
      → IsVerified controller accessory csecret asecret
  unfolding start new_with_ephemeral build from_secret ltpk event_key m3_signed accessory_m3_signed
  verifies-IsVerified controller accessory csecret asecret key encrypted sealed k e s =
      let shared = common_secret p laws asecret csecret in
      let known = stored p laws accessory.id accessory.signing in
      let c1 = waiting p laws controller known csecret in
      let progress : VerifyInProgress = record {
        accessory_eph_pub = p.dh_public asecret;
        controller_eph_pub = p.dh_public csecret;
        shared = shared;
        pv_key = key;
      } in
      let (keys, second, fourth, derived) =
        handle_runs p laws controller accessory.id accessory.signing csecret asecret key encrypted
          sealed k e s in
      let (r, w) = session_keys_derived shared keys derived in
      let (events, v) = derive_ok p laws shared event_salt event_read_info in
      record {
        m2 = accessory_m2 p (p.dh_public asecret) encrypted;
        m3 = m3_message p laws sealed;
        m4 = accessory_m4 p laws;
        progress = progress;
        c2 = with_secret p laws c1 shared;
        c3 = completed p laws c1 shared;
        keys = keys;
        events = events;
        session = new_accessory keys.read_key keys.write_key events;
        first =
            handle_m1_ok p laws accessory accessory.id csecret asecret key encrypted
              (hkdf32_ok p laws shared pv_encrypt_salt pv_encrypt_info key k) e;
        second = second;
        third =
            handle_m3_ok p laws progress controller sealed s
            ∙ establish_ok shared keys.read_key keys.write_key events r w v;
        fourth = fourth;
        event = v;
        together = record {
          read_key = refl;
          write_key = refl;
          event_key = refl;
          requests = refl;
          responses = refl;
          events = refl;
        };
      }
