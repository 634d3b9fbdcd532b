-- ===== src/Crypto/PairVerify/Safety.antt =====
-- What a Pair Verify client accepts: keys only from a secret that the accessory's signature covers.
use hap_rust.Common.{
  ℕ, ◌≡◌, ◌≢◌, refl, sym, ap, List, [], ◌∷◌, Option, none, some, Result, ok, err, stuck, true,
  both_steps, guard, guard-eq-ok, ok-injective, ok_or, map_err, arith,
}
use mathlib.Core.Path.{subst}
use hap_rust.Tlv8.Map
use hap_rust.Crypto.Types.{
  CryptoError, tlv, tlv_identifier, tlv_public_key, tlv_encrypted_data, tlv_signature,
}
use hap_rust.Crypto.Aead.{decrypt, hap_nonce}
use hap_rust.Crypto.Primitives.{
  Primitives, diffie_hellman, verify_ed25519, ControllerKeypair, EphemeralKeypair, from_secret,
}
use hap_rust.Crypto.PairVerify.Types.{
  pv_encrypt_salt, pv_encrypt_info, nonce_m2, state_m2, state_m4, SessionKeys, AccessoryPairing,
  done, State, init, await_m2, await_m4, finished, PairVerifyClient, build,
}
use hap_rust.Crypto.PairVerify.{
  bytes_eq, required, to_array, check_error, expect_state, derive_key, new_with_ephemeral, start,
  build_m3, m2_signed, verify_sub, answer_m2, after_m2, handle_m2, session_keys, answer_m4,
  after_m4, handle_m4, dispatch, handle,
}

pub bytes_eq→≡ : (xs ys : List ℕ) → bytes_eq xs ys ≡ true → xs ≡ ys
bytes_eq→≡ [] [] e = refl
bytes_eq→≡ [] (y ∷ ys) e = cc
bytes_eq→≡ (x ∷ xs) [] e = cc
bytes_eq→≡ (x ∷ xs) (y ∷ ys) e = ground (arith, bytes_eq→≡ xs ys)

ok_or-eq-ok : {A : Type 0} (e : CryptoError) (o : Option A) {a : A} → ok_or o e ≡ ok a → o ≡ some a
ok_or-eq-ok e none h = cc
ok_or-eq-ok e (some x) h = cc

some_injective : (x y : List ℕ) → some x ≡ some y → x ≡ y
some_injective x y e = cc

module _ (p : Primitives) where
  -- A signature under the accessory's long-term key over an ephemeral key, the accessory's
  -- identifier and the controller's own ephemeral key, with the secret that the two keys share.
  pub record Authenticated (accessory : AccessoryPairing) (ephemeral : EphemeralKeypair)
      (shared : List ℕ) : Type 0 where
    pub eph : List ℕ
    pub sig : List ℕ
    pub secret : shared ≡ diffie_hellman p ephemeral eph
    pub verified :
        verify_ed25519 p accessory.ltpk
          (m2_signed p eph accessory.pairing_id ephemeral.public_key)
          sig
        ≡ ok tt

  verify_sub-verify_ed25519 :
      (c : PairVerifyClient) (plaintext eph : List ℕ) {u : Unit {0}}
      → verify_sub p c plaintext eph ≡ ok u
      → (sig : List ℕ) × (verify_ed25519 p c.accessory.ltpk
            (m2_signed p eph c.accessory.pairing_id c.ephemeral.public_key)
            sig
          ≡ ok tt)
  unfolding verify_sub
  verify_sub-verify_ed25519 c plaintext eph e =
      let (sub, _, e1) = both_steps _ (map_err tlv (Map.parse plaintext)) e in
      let (id, _, e2) = both_steps _ (required sub tlv_identifier _) e1 in
      let (sb, _, e3) = both_steps _ (required sub tlv_signature _) e2 in
      let (sig, _, e4) = both_steps _ (to_array 64 sb _) e3 in
      let (_, same, e5) = both_steps _ (guard (bytes_eq id c.accessory.pairing_id) _) e4 in
      let known = bytes_eq→≡ id c.accessory.pairing_id (guard-eq-ok _ _ same) in
      (
        sig,
        subst
            (λ x.
              verify_ed25519 p c.accessory.ltpk (m2_signed p eph x c.ephemeral.public_key) sig
              ≡ ok tt)
            known e5,
      )

  answer_m2-Authenticated :
      (c : PairVerifyClient) (response shared m3 : List ℕ)
      → answer_m2 p c response ≡ ok (shared, m3)
      → Authenticated c.accessory c.ephemeral shared
  unfolding answer_m2
  answer_m2-Authenticated c response shared m3 e =
      let (m, _, e1) = both_steps _ (map_err tlv (Map.parse response)) e in
      let (_, _, e2) = both_steps _ (check_error m) e1 in
      let (_, _, e3) = both_steps _ (expect_state m state_m2) e2 in
      let (eb, _, e4) = both_steps _ (required m tlv_public_key _) e3 in
      let (eph, _, e5) = both_steps _ (to_array 32 eb _) e4 in
      let (ct, _, e6) = both_steps _ (required m tlv_encrypted_data _) e5 in
      let secret = diffie_hellman p c.ephemeral eph in
      let (key, _, e7) = both_steps _ (derive_key p secret pv_encrypt_salt pv_encrypt_info) e6 in
      let (text, _, e8) = both_steps _ (decrypt p.chacha key (hap_nonce nonce_m2) [] ct) e7 in
      let (_, v, e9) = both_steps _ (verify_sub p c text eph) e8 in
      let (m3', _, e10) = both_steps _ (build_m3 p c key c.ephemeral.public_key eph) e9 in
      let (sig, signed) = verify_sub-verify_ed25519 c text eph v in
      record {
        eph = eph;
        sig = sig;
        secret = sym (ap (λ x. x.0) (ok-injective (secret, m3') (shared, m3) e10));
        verified = signed;
      }

  -- A client as any sequence of `start` and `handle` calls leaves it, whatever is received.
  pub data Driven (c0 : PairVerifyClient) : PairVerifyClient → Type 0 where
    created : Driven c0 c0
    started : {c : PairVerifyClient} → Driven c0 c → Driven c0 (start p c).1
    handled :
        {c : PairVerifyClient}
        → Driven c0 c
        → (response : List ℕ) → Driven c0 (handle p c response).1

  -- The identity of a client stays, and each secret that it holds is authenticated.
  record IsSound (accessory : AccessoryPairing) (ephemeral : EphemeralKeypair)
      (c : PairVerifyClient) : Type 0 where
    same_accessory : c.accessory ≡ accessory
    same_ephemeral : c.ephemeral ≡ ephemeral
    secrets : (s : List ℕ) → c.shared_secret ≡ some s → Authenticated accessory ephemeral s

  start-IsSound :
      {a : AccessoryPairing} {k : EphemeralKeypair} (c : PairVerifyClient)
      → IsSound a k c
      → IsSound a k (start p c).1
  unfolding start
  start-IsSound c i = record {
    same_accessory = i.same_accessory;
    same_ephemeral = i.same_ephemeral;
    secrets = i.secrets;
  }

  transported :
      {a b : AccessoryPairing} {k l : EphemeralKeypair} {s : List ℕ}
      → a ≡ b
      → k ≡ l
      → Authenticated a k s
      → Authenticated b l s
  transported {a} {b} {k} {l} {s} e f t =
      subst (λ x. Authenticated x l s) e (subst (λ x. Authenticated a x s) f t)

  handle_m2-IsSound :
      {a : AccessoryPairing} {k : EphemeralKeypair} (c : PairVerifyClient)
      (r : Result CryptoError (List ℕ × List ℕ))
      → IsSound a k c
      → ((shared m3 : List ℕ) → r ≡ ok (shared, m3) → Authenticated c.accessory c.ephemeral shared)
      → IsSound a k (after_m2 p c r).1
  unfolding after_m2
  handle_m2-IsSound {a} {k} c (ok (shared, m3)) i new = record {
    same_accessory = i.same_accessory;
    same_ephemeral = i.same_ephemeral;
    secrets = λ s e.
        subst (λ x. Authenticated a k x) (some_injective shared s e)
          (transported i.same_accessory i.same_ephemeral (new shared m3 refl));
  }
  handle_m2-IsSound c (err e) i new = i
  handle_m2-IsSound c stuck i new = i

  handle_m4-IsSound :
      {a : AccessoryPairing} {k : EphemeralKeypair} (c : PairVerifyClient)
      (r : Result CryptoError SessionKeys)
      → IsSound a k c
      → IsSound a k (after_m4 p c r).1
  unfolding after_m4
  handle_m4-IsSound c (ok keys) i = record {
    same_accessory = i.same_accessory;
    same_ephemeral = i.same_ephemeral;
    secrets = i.secrets;
  }
  handle_m4-IsSound c (err e) i = i
  handle_m4-IsSound c stuck i = i

  dispatch-IsSound :
      {a : AccessoryPairing} {k : EphemeralKeypair} (s : State) (c : PairVerifyClient)
      (response : List ℕ)
      → IsSound a k c
      → IsSound a k (dispatch p s c response).1
  unfolding dispatch handle_m2 handle_m4
  dispatch-IsSound init c response i = i
  dispatch-IsSound finished c response i = i
  dispatch-IsSound await_m2 c response i =
      handle_m2-IsSound c (answer_m2 p c response) i
        (λ shared m3 e. answer_m2-Authenticated c response shared m3 e)
  dispatch-IsSound await_m4 c response i = handle_m4-IsSound c (answer_m4 p c response) i

  Driven-IsSound :
      {a : AccessoryPairing} {k : EphemeralKeypair} {c0 c : PairVerifyClient}
      → Driven c0 c
      → IsSound a k c0
      → IsSound a k c
  unfolding handle
  Driven-IsSound created i = i
  Driven-IsSound (started {c} d) i = start-IsSound c (Driven-IsSound d i)
  Driven-IsSound (handled {c} d response) i =
      dispatch-IsSound c.state c response (Driven-IsSound d i)

  after_m2-ne-done :
      (c c' : PairVerifyClient) (keys : SessionKeys) (r : Result CryptoError (List ℕ × List ℕ))
      → after_m2 p c r ≢ (ok (done keys), c')
  unfolding after_m2
  after_m2-ne-done c c' keys (ok (shared, m3)) e = cc
  after_m2-ne-done c c' keys (err x) e = cc
  after_m2-ne-done c c' keys stuck e = cc

  after_m4_done :
      (c c' : PairVerifyClient) (keys : SessionKeys) (r : Result CryptoError SessionKeys)
      → after_m4 p c r ≡ (ok (done keys), c')
      → r ≡ ok keys
  unfolding after_m4
  after_m4_done c c' keys (ok k) e = cc
  after_m4_done c c' keys (err x) e = cc
  after_m4_done c c' keys stuck e = cc

  -- Only a client that awaits M4 finishes, with the keys of the secret that it holds.
  finishes :
      (s : State) (c c' : PairVerifyClient) (response : List ℕ) (keys : SessionKeys)
      → dispatch p s c response ≡ (ok (done keys), c')
      → (s ≡ await_m4)
        × (shared : List ℕ) × (c.shared_secret ≡ some shared)
        × (session_keys p shared ≡ ok keys)
  unfolding dispatch handle_m2 handle_m4 answer_m4
  finishes init c c' response keys e = cc
  finishes finished c c' response keys e = cc
  finishes await_m2 c c' response keys e =
      absurd (after_m2-ne-done c c' keys (answer_m2 p c response) e)
  finishes await_m4 c c' response keys e =
      let d = after_m4_done c c' keys (answer_m4 p c response) e in
      let (m, _, e1) = both_steps _ (map_err tlv (Map.parse response)) d in
      let (_, _, e2) = both_steps _ (check_error m) e1 in
      let (_, _, e3) = both_steps _ (expect_state m state_m4) e2 in
      let (shared, held, e4) = both_steps _ (ok_or c.shared_secret _) e3 in
      (refl, shared, ok_or-eq-ok _ c.shared_secret held, e4)

  -- However a new client is driven, if `handle` returns session keys, then the client awaited M4,
  -- and the keys come from a secret shared with an ephemeral key that a signature under the stored
  -- long-term key of the accessory covers, together with the accessory's identifier and the
  -- client's own ephemeral key.
  pub handle-Authenticated :
      (controller : ControllerKeypair) (accessory : AccessoryPairing) (secret : List ℕ)
      (c c' : PairVerifyClient) (response : List ℕ) (keys : SessionKeys)
      → Driven (new_with_ephemeral p controller accessory secret) c
      → handle p c response ≡ (ok (done keys), c')
      → (c.state ≡ await_m4)
        × (shared : List ℕ) × Authenticated accessory (from_secret p secret) shared
        × (session_keys p shared ≡ ok keys)
  unfolding handle new_with_ephemeral build
  handle-Authenticated controller accessory secret c c' response keys d e =
      let i =
        Driven-IsSound d
          (record { same_accessory = refl; same_ephemeral = refl; secrets = λ s h. cc }) in
      let (at, shared, held, derived) = finishes c.state c c' response keys e in
      (at, shared, i.secrets shared held, derived)
