-- ===== src/Crypto/PairSetup/Safety.antt =====
-- What a Pair Setup client accepts: a pairing only behind a proof that the accessory knows the setup
-- code, and under a signature by the key that it stores.
use hap_rust.Common.{
  ℕ, ◌≡◌, refl, ap, List, [], some, Result, ok, err, stuck, ◌>>◌, true, length, ◌==◌, ==_iff,
  both_steps, guard, guard-eq-ok, ok-injective, map_err, is_utf8, present,
}
use mathlib.Core.Path.{subst}
use hap_rust.Tlv8.Map
use hap_rust.Tlv8.Map.{Tlv8Map}
use hap_rust.Crypto.Types.{
  CryptoError, tlv, tlv_identifier, tlv_salt, tlv_public_key, tlv_proof, tlv_encrypted_data,
  tlv_signature,
}
use hap_rust.Crypto.Aead.{decrypt, hap_nonce}
use hap_rust.Crypto.Primitives.{Primitives, hkdf_sha512, verify_ed25519}
use hap_rust.Crypto.Srp.{
  Arithmetic, SrpClient, premaster, client_session_key, client_proof_m1, verify_m2,
}
use hap_rust.Crypto.PairVerify.Types.{AccessoryPairing, state_m2, state_m4}
use hap_rust.Crypto.PairVerify.{required, to_array}
use hap_rust.Crypto.PairSetup.Types.{
  encrypt_salt, encrypt_info, accessory_sign_salt, accessory_sign_info, nonce_m6, state_m6,
  PairSetupStep, done, State, initial, awaiting_m2, awaiting_m4, awaiting_m6, finished,
  PairSetupClient,
}
use hap_rust.Crypto.PairSetup.{
  expect_state, answer_m2, after_m2, handle_m2, answer_m4, after_m4, handle_m4, m6_signed, open_sub,
  answer_m6, after_m6, handle_m6, dispatch, after_accept,
}

done_injective : (a b : AccessoryPairing) → ◌≡◌ {A = PairSetupStep} (done a) (done b) → a ≡ b
done_injective a b e = cc

to_array_length :
    (n : ℕ) (bytes : List ℕ) (x : CryptoError) {out : List ℕ}
    → (guard (length bytes == n) x >> ok bytes) ≡ ok out
    → length out ≡ n
to_array_length n bytes x e =
    let (_, long, same) = both_steps _ (guard (length bytes == n) x) e in
    subst (λ t. length t ≡ n) (ok-injective _ _ same)
      ((==_iff (length bytes) n).0 (guard-eq-ok _ _ long))

-- `Got` are the messages that have been received.
module _ (p : Primitives) (z : Arithmetic) (password : List ℕ) (srp : SrpClient)
    (Got : Tlv8Map → Type 0) where
  -- The session key of an SRP exchange with the password, and the proof that goes with it.
  pub record IsDerived (session_key m1 : List ℕ) : Type 0 where
    pub salt : List ℕ
    pub b_pub : ℕ
    pub pm : ℕ
    pub secret : premaster z srp salt password b_pub ≡ ok pm
    pub key : client_session_key z srp pm ≡ session_key
    pub proof : client_proof_m1 z srp salt b_pub session_key ≡ m1

  -- A message was received whose proof fits the key: the accessory has the same key.
  pub record IsProved (session_key : List ℕ) : Type 0 where
    pub m1 : List ℕ
    pub derived : IsDerived session_key m1
    pub message : Tlv8Map
    pub got : Got message
    pub m2 : List ℕ
    pub sent : Map.get message tlv_proof ≡ some m2
    pub checked : verify_m2 z srp m1 session_key m2 ≡ ok tt

  -- A pairing signed, under its own key, with what only the two sides of the exchange know.
  pub record IsSigned (pairing : AccessoryPairing) : Type 0 where
    pub session_key : List ℕ
    pub proved : IsProved session_key
    pub accessory_x : List ℕ
    pub derived :
        hkdf_sha512 p session_key accessory_sign_salt accessory_sign_info 32 ≡ ok accessory_x
    pub sig : List ℕ
    pub verified :
        verify_ed25519 p pairing.ltpk
          (m6_signed p z accessory_x pairing.pairing_id pairing.ltpk)
          sig
        ≡ ok tt
    pub text : is_utf8 pairing.pairing_id ≡ true
    pub long : length pairing.ltpk ≡ 32

  abbrev pub IsBacked : State → Type 0
  IsBacked initial = Unit {0}
  IsBacked awaiting_m2 = Unit {0}
  IsBacked (awaiting_m4 session_key m1) = IsDerived session_key m1
  IsBacked (awaiting_m6 session_key) = IsProved session_key
  IsBacked finished = Unit {0}

  pub record IsSound (c : PairSetupClient) : Type 0 where
    pub same_password : c.password ≡ password
    pub same_srp : c.srp ≡ srp
    pub backed : IsBacked c.state

  pub moved :
      (c : PairSetupClient) (s : State) → IsSound c → IsBacked s → IsSound (record c { state = s })
  moved c s i b = record { same_password = i.same_password; same_srp = i.same_srp; backed = b }

  answer_m2-IsDerived :
      (c : PairSetupClient) (m : Tlv8Map) (session_key m1 m3 : List ℕ)
      → c.password ≡ password
      → c.srp ≡ srp
      → answer_m2 p z c m ≡ ok (session_key, m1, m3)
      → IsDerived session_key m1
  unfolding answer_m2
  answer_m2-IsDerived c m session_key m1 m3 same_password same_srp e =
      let (_, _, e1) = both_steps _ (expect_state m state_m2) e in
      let (salt, _, e2) = both_steps _ (required m tlv_salt _) e1 in
      let (b_bytes, _, e3) = both_steps _ (required m tlv_public_key _) e2 in
      let b_pub = z.from_bytes_be b_bytes in
      let (pm, secret, e4) = both_steps _ (premaster z c.srp salt c.password b_pub) e3 in
      let out = ok-injective _ _ e4 in
      let key = subst (λ t. client_session_key z t pm ≡ session_key) same_srp (ap (λ t. t.0) out) in
      record {
        salt = salt;
        b_pub = b_pub;
        pm = pm;
        secret =
            subst (λ t. premaster z t salt password b_pub ≡ ok pm) same_srp
              (subst (λ t. premaster z c.srp salt t b_pub ≡ ok pm) same_password secret);
        key = key;
        proof =
            subst (λ t. client_proof_m1 z srp salt b_pub t ≡ m1) key
              (subst (λ t. client_proof_m1 z t salt b_pub (client_session_key z t pm) ≡ m1) same_srp
                (ap (λ t. t.1) out));
      }

  answer_m4-IsProved :
      (c : PairSetupClient) (m : Tlv8Map) (session_key m1 m5 : List ℕ)
      → c.srp ≡ srp
      → IsDerived session_key m1
      → Got m
      → answer_m4 p z c session_key m1 m ≡ ok m5
      → IsProved session_key
  unfolding answer_m4 required
  answer_m4-IsProved c m session_key m1 m5 same_srp d got e =
      let (_, _, e1) = both_steps _ (expect_state m state_m4) e in
      let (proof, held, e2) = both_steps _ (required m tlv_proof _) e1 in
      let (_, checked, _) = both_steps _ (verify_m2 z c.srp m1 session_key proof) e2 in
      record {
        m1 = m1;
        derived = d;
        message = m;
        got = got;
        m2 = proof;
        sent = present _ (Map.get m tlv_proof) held;
        checked = subst (λ t. verify_m2 z t m1 session_key proof ≡ ok tt) same_srp checked;
      }

  after_m2-IsSound :
      (c : PairSetupClient) (m : Tlv8Map) (r : Result CryptoError (List ℕ × List ℕ × List ℕ))
      → IsSound c
      → answer_m2 p z c m ≡ r
      → IsSound (after_m2 p z c r).1
  unfolding after_m2
  after_m2-IsSound c m (ok (session_key, m1, m3)) i e =
      moved c (awaiting_m4 session_key m1) i
        (answer_m2-IsDerived c m session_key m1 m3 i.same_password i.same_srp e)
  after_m2-IsSound c m (err x) i e = i
  after_m2-IsSound c m stuck i e = i

  after_m4-IsSound :
      (c : PairSetupClient) (m : Tlv8Map) (session_key m1 : List ℕ)
      (r : Result CryptoError (List ℕ))
      → IsSound c
      → IsDerived session_key m1
      → Got m
      → answer_m4 p z c session_key m1 m ≡ r
      → IsSound (after_m4 p z c session_key r).1
  unfolding after_m4
  after_m4-IsSound c m session_key m1 (ok m5) i d got e =
      moved c (awaiting_m6 session_key) i
        (answer_m4-IsProved c m session_key m1 m5 i.same_srp d got e)
  after_m4-IsSound c m session_key m1 (err x) i d got e = i
  after_m4-IsSound c m session_key m1 stuck i d got e = i

  after_m6-IsSound :
      (c : PairSetupClient) (r : Result CryptoError (Unit {0}))
      (step : Result CryptoError PairSetupStep)
      → IsSound c
      → IsSound (after_m6 p z c r step).1
  unfolding after_m6
  after_m6-IsSound c (ok tt) step i = moved c finished i tt
  after_m6-IsSound c (err x) step i = i
  after_m6-IsSound c stuck step i = i

  dispatch-IsSound :
      (s : State) (c : PairSetupClient) (m : Tlv8Map)
      → IsSound c
      → IsBacked s
      → Got m
      → IsSound (dispatch p z s c m).1
  unfolding dispatch handle_m2 handle_m4 handle_m6
  dispatch-IsSound initial c m i b got = i
  dispatch-IsSound awaiting_m2 c m i b got = after_m2-IsSound c m (answer_m2 p z c m) i refl
  dispatch-IsSound (awaiting_m4 session_key m1) c m i b got =
      after_m4-IsSound c m session_key m1 (answer_m4 p z c session_key m1 m) i b got refl
  dispatch-IsSound (awaiting_m6 session_key) c m i b got =
      after_m6-IsSound c (expect_state m state_m6) (answer_m6 p z session_key m) i
  dispatch-IsSound finished c m i b got = i

  pub after_accept-IsSound :
      (c : PairSetupClient) (r : Result CryptoError Tlv8Map)
      → IsSound c
      → ((m : Tlv8Map) → r ≡ ok m → Got m)
      → IsSound (after_accept p z c r).1
  unfolding after_accept
  after_accept-IsSound c (ok m) i got = dispatch-IsSound c.state c m i i.backed (got m refl)
  after_accept-IsSound c (err x) i got = i
  after_accept-IsSound c stuck i got = i

  open_sub-IsSigned :
      (session_key plaintext : List ℕ) (pairing : AccessoryPairing)
      → IsProved session_key
      → open_sub p z session_key plaintext ≡ ok pairing
      → IsSigned pairing
  unfolding open_sub to_array
  open_sub-IsSigned session_key plaintext pairing proved e =
      let (sub, _, e1) = both_steps _ (map_err tlv (Map.parse plaintext)) e in
      let (id, _, e2) = both_steps _ (required sub tlv_identifier _) e1 in
      let (kb, _, e3) = both_steps _ (required sub tlv_public_key _) e2 in
      let (sb, _, e4) = both_steps _ (required sub tlv_signature _) e3 in
      let (key, long, e5) = both_steps _ (to_array 32 kb _) e4 in
      let (sig, _, e6) = both_steps _ (to_array 64 sb _) e5 in
      let (_, text, e7) = both_steps _ (guard (is_utf8 id) _) e6 in
      let (x, derived, e8) =
        both_steps _ (hkdf_sha512 p session_key accessory_sign_salt accessory_sign_info 32) e7 in
      let (_, verified, e9) = both_steps _ (verify_ed25519 p key (m6_signed p z x id key) sig) e8 in
      subst IsSigned (ok-injective _ _ e9) (record {
        session_key = session_key;
        proved = proved;
        accessory_x = x;
        derived = derived;
        sig = sig;
        verified = verified;
        text = guard-eq-ok _ _ text;
        long = to_array_length 32 kb _ long;
      })

  pub answer_m6-IsSigned :
      (session_key : List ℕ) (m : Tlv8Map) (pairing : AccessoryPairing)
      → IsProved session_key
      → answer_m6 p z session_key m ≡ ok (done pairing)
      → IsSigned pairing
  unfolding answer_m6
  answer_m6-IsSigned session_key m pairing proved e =
      let (ct, _, e1) = both_steps _ (required m tlv_encrypted_data _) e in
      let (key, _, e2) = both_steps _ (hkdf_sha512 p session_key encrypt_salt encrypt_info 32) e1 in
      let (text, _, e3) = both_steps _ (decrypt p.chacha key (hap_nonce nonce_m6) [] ct) e2 in
      let (got, opened, e4) = both_steps _ (open_sub p z session_key text) e3 in
      subst IsSigned (done_injective got pairing (ok-injective _ _ e4))
        (open_sub-IsSigned session_key text got proved opened)
