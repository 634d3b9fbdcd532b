-- ===== src/Crypto/PairVerify/Handshake.antt =====
-- A whole Pair Verify with the accessory of the stored pairing.
use Prim.Native.String.{String}
use hap_rust.Common.{
  to_le_bytes, from_le_bytes, Bool, found, ℕ, ◌≡◌, refl, sym, ap, ◌∙◌, List, [], ◌∷◌, some, ok,
  then_ok, length, arith, true, guard, map_err,
}
use mathlib.Core.Path.{subst}
use hap_rust.Tlv8.Map
use hap_rust.Tlv8.Map.{from_items, find_item, get_uint, decode_uint, get_u8}
use hap_rust.Tlv8.Writer.{push, push_u8}
use hap_rust.Tlv8.RoundTrip.{push_all, parse-push_all}
use hap_rust.Crypto.Types.{
  CryptoError, tlv, tlv_identifier, tlv_public_key, tlv_encrypted_data, tlv_state, tlv_signature,
}
use hap_rust.Crypto.Aead.{encrypt, decrypt, hap_nonce}
use hap_rust.Crypto.Primitives.{
  Primitives, PrimitiveLaws, from_secret, hkdf_sha512, diffie_hellman, verify_ed25519,
  ControllerKeypair,
}
use hap_rust.Crypto.PairVerify.Types.{
  control_salt, control_read_info, control_write_info, pv_encrypt_salt, pv_encrypt_info, nonce_m2,
  nonce_m3, state_m2, state_m3, state_m4, SessionKeys, AccessoryPairing, send, done, await_m4,
  finished, PairVerifyClient, build,
}
use hap_rust.Crypto.PairVerify.{
  bytes_eq, required, to_array, check_error, state_is, expect_state, derive_key, new_with_ephemeral,
  start, m3_signed, build_m3, m2_signed, verify_sub, answer_m2, after_m2, handle_m2, session_keys,
  answer_m4, after_m4, handle_m4, dispatch, handle,
}

pub bytes_eq_refl : (xs : List ℕ) → bytes_eq xs xs ≡ true
bytes_eq_refl [] = refl
bytes_eq_refl (x ∷ xs) = ground (arith, bytes_eq_refl xs)

guard_passes : {t : Bool} (e : CryptoError) → t ≡ true → guard t e ≡ ok tt
guard_passes e h = ap (λ b. guard b e) h

to_array_ok :
    (n : ℕ) (bytes : List ℕ) (wrong : String) → length bytes ≡ n → to_array n bytes wrong ≡ ok bytes
unfolding to_array
to_array_ok n bytes wrong e = ground (arith, e)

module _ (p : Primitives) where
  -- The sub-TLV that a side encrypts: its identifier and its signature over `signed`.
  abbrev pub sub_tlv : (seed id signed : List ℕ) → List ℕ
  sub_tlv seed id signed = push (push [] tlv_identifier id) tlv_signature (p.sign_with seed signed)

  -- What the accessory sends in M2: its ephemeral key, and its sub-TLV encrypted.
  abbrev pub accessory_m2 : (eph encrypted : List ℕ) → List ℕ
  accessory_m2 eph encrypted =
      push (push (push_u8 [] tlv_state state_m2) tlv_public_key eph) tlv_encrypted_data encrypted

  module _ (laws : PrimitiveLaws p) where
    pub verify_ed25519-sign_with :
        (seed key m : List ℕ)
        → key ≡ p.verifying_key seed
        → verify_ed25519 p key m (p.sign_with seed m) ≡ ok tt
    unfolding verify_ed25519
    verify_ed25519-sign_with seed key m known =
        rw known (ground (arith, laws.key_accepted seed, laws.verifies seed m))

    pub parse-sub_tlv :
        (seed id signed : List ℕ)
        → Map.parse (sub_tlv seed id signed)
          ≡ ok (from_items ((tlv_identifier, id) ∷ (tlv_signature, p.sign_with seed signed) ∷ []))
    unfolding Map.parse push_all
    parse-sub_tlv seed id signed =
        then_ok (λ is. ok (from_items is))
          (parse-push_all ((tlv_identifier, id) ∷ (tlv_signature, p.sign_with seed signed) ∷ [])
            (omega arith))
          refl

    abbrev m2_map : (eph encrypted : List ℕ) → Map.Tlv8Map
    m2_map eph encrypted =
        from_items
          ((tlv_state, 2 ∷ []) ∷ (tlv_public_key, eph) ∷ (tlv_encrypted_data, encrypted) ∷ [])

    parse-accessory_m2 :
        (eph encrypted : List ℕ)
        → Map.parse (accessory_m2 eph encrypted) ≡ ok (m2_map eph encrypted)
    unfolding Map.parse push_all push_u8 to_le_bytes
    parse-accessory_m2 eph encrypted =
        then_ok (λ is. ok (from_items is))
          (parse-push_all
            ((tlv_state, 2 ∷ []) ∷ (tlv_public_key, eph) ∷ (tlv_encrypted_data, encrypted) ∷ [])
            (omega arith))
          refl

    verify_sub_accepts :
        (c : PairVerifyClient) (seed eph : List ℕ)
        → c.accessory.ltpk ≡ p.verifying_key seed
        → verify_sub p c
            (sub_tlv seed c.accessory.pairing_id
              (m2_signed p eph c.accessory.pairing_id c.ephemeral.public_key))
            eph
          ≡ ok tt
    unfolding verify_sub required Map.get find_item from_items
    verify_sub_accepts c seed eph known =
        let id = c.accessory.pairing_id in
        let signed = m2_signed p eph id c.ephemeral.public_key in
        let sig = p.sign_with seed signed in
        then_ok _ (ap (map_err tlv) (parse-sub_tlv seed id signed)) (
          then_ok _ (to_array_ok 64 sig _ (laws.signature_len seed signed)) (
            then_ok _ (guard_passes _ (bytes_eq_refl id))
              (verify_ed25519-sign_with seed c.accessory.ltpk signed known)))

    abbrev pv_nonce : List ℕ
    pv_nonce = hap_nonce nonce_m2

    pub derive_ok :
        (shared salt info : List ℕ) → (k : List ℕ) × (derive_key p shared salt info ≡ ok k)
    unfolding derive_key hkdf_sha512
    derive_ok shared salt info = let (k, e) = laws.expands shared salt info in (k, found _ e)

    encrypt_ok :
        (key n m ct : List ℕ)
        → p.chacha.seal key n [] m ≡ some ct
        → encrypt p.chacha key n [] m ≡ ok ct
    unfolding encrypt
    encrypt_ok key n m ct e = found _ e

    pub decrypt_ok :
        (key n m ct : List ℕ)
        → p.chacha.seal key n [] m ≡ some ct
        → decrypt p.chacha key n [] ct ≡ ok m
    unfolding decrypt
    decrypt_ok key n m ct e = found _ (laws.chacha_laws.opens key n [] m ct e)

    -- What the client sends in M3.
    abbrev pub m3_message : List ℕ → List ℕ
    m3_message sealed = push (push_u8 [] tlv_state state_m3) tlv_encrypted_data sealed

    build_m3_ok :
        (c : PairVerifyClient) (key eph sealed : List ℕ)
        → p.chacha.seal key (hap_nonce nonce_m3) [] (
            sub_tlv c.signing c.controller_id
              (m3_signed p c.ephemeral.public_key c.controller_id eph))
          ≡ some sealed
        → build_m3 p c key c.ephemeral.public_key eph ≡ ok (m3_message sealed)
    unfolding build_m3
    build_m3_ok c key eph sealed e = then_ok _ (encrypt_ok key (hap_nonce nonce_m3) _ sealed e) refl

    answer_m2_ok :
        (c : PairVerifyClient) (aseed asecret key encrypted sealed : List ℕ)
        → c.accessory.ltpk ≡ p.verifying_key aseed
        → derive_key p
            (diffie_hellman p c.ephemeral (p.dh_public asecret))
            pv_encrypt_salt
            pv_encrypt_info
          ≡ ok key
        → p.chacha.seal key pv_nonce [] (
            sub_tlv aseed c.accessory.pairing_id
              (m2_signed p (p.dh_public asecret) c.accessory.pairing_id c.ephemeral.public_key))
          ≡ some encrypted
        → p.chacha.seal key (hap_nonce nonce_m3) [] (
            sub_tlv c.signing c.controller_id
              (m3_signed p c.ephemeral.public_key c.controller_id (p.dh_public asecret)))
          ≡ some sealed
        → answer_m2 p c (accessory_m2 (p.dh_public asecret) encrypted)
          ≡ ok (diffie_hellman p c.ephemeral (p.dh_public asecret), m3_message sealed)
    unfolding answer_m2 check_error expect_state required Map.get get_u8 get_uint decode_uint
        find_item from_items state_is from_le_bytes
    answer_m2_ok c aseed asecret key encrypted sealed known k e s =
        let eph = p.dh_public asecret in
        then_ok _ (ap (map_err tlv) (parse-accessory_m2 eph encrypted)) (
          then_ok _ (to_array_ok 32 eph _ (laws.dh_public_len asecret)) (
            then_ok _ k (
              then_ok _ (decrypt_ok key pv_nonce _ encrypted e) (
                then_ok _ (verify_sub_accepts c aseed eph known)
                  (then_ok _ (build_m3_ok c key eph sealed s) refl)))))

    session_keys_ok : (shared : List ℕ) → (keys : SessionKeys) × (session_keys p shared ≡ ok keys)
    unfolding session_keys
    session_keys_ok shared =
        let (r, e) = derive_ok shared control_salt control_read_info in
        let (w, f) = derive_ok shared control_salt control_write_info in
        (record { read_key = r; write_key = w }, then_ok _ e (then_ok _ f refl))

    abbrev pub accessory_m4 : List ℕ
    accessory_m4 = push_u8 [] tlv_state state_m4

    parse-accessory_m4 : Map.parse accessory_m4 ≡ ok (from_items ((tlv_state, 4 ∷ []) ∷ []))
    unfolding Map.parse push_all push_u8 to_le_bytes
    parse-accessory_m4 =
        then_ok (λ is. ok (from_items is)) (parse-push_all ((tlv_state, 4 ∷ []) ∷ []) (omega arith))
          refl

    answer_m4_ok :
        (c : PairVerifyClient) (shared : List ℕ) (keys : SessionKeys)
        → c.shared_secret ≡ some shared
        → session_keys p shared ≡ ok keys
        → answer_m4 p c accessory_m4 ≡ ok keys
    unfolding answer_m4 check_error expect_state Map.get get_u8 get_uint decode_uint find_item
        from_items state_is from_le_bytes
    answer_m4_ok c shared keys held e =
        then_ok _ (ap (map_err tlv) parse-accessory_m4) (then_ok _ (found _ held) e)

    -- The client that has sent M1, and what it and an accessory share.
    abbrev pub waiting : ControllerKeypair → AccessoryPairing → List ℕ → PairVerifyClient
    waiting controller accessory secret =
        (start p (new_with_ephemeral p controller accessory secret)).1

    abbrev pub common_secret : (secret peer : List ℕ) → List ℕ
    common_secret secret peer = p.dh secret (p.dh_public peer)

    -- What Pair Setup has stored of the accessory with this identifier and key seed.
    abbrev pub stored : (id seed : List ℕ) → AccessoryPairing
    stored id seed = record { pairing_id = id; ltpk = p.verifying_key seed }

    -- The client after M2, and after M4.
    abbrev pub with_secret : PairVerifyClient → List ℕ → PairVerifyClient
    with_secret c shared = record c { shared_secret = some shared; state = await_m4 }

    abbrev pub completed : PairVerifyClient → List ℕ → PairVerifyClient
    completed c shared = record c { shared_secret = some shared; state = finished }

    pub handle_runs :
        (controller : ControllerKeypair) (id aseed csecret asecret key encrypted sealed : List ℕ)
        → derive_key p (common_secret asecret csecret) pv_encrypt_salt pv_encrypt_info ≡ ok key
        → p.chacha.seal key pv_nonce []
            (sub_tlv aseed id (m2_signed p (p.dh_public asecret) id (p.dh_public csecret)))
          ≡ some encrypted
        → p.chacha.seal key (hap_nonce nonce_m3) [] (
            sub_tlv controller.signing controller.id
              (m3_signed p (p.dh_public csecret) controller.id (p.dh_public asecret)))
          ≡ some sealed
        → (keys : SessionKeys) × (handle p
              (waiting controller (stored id aseed) csecret)
              (accessory_m2 (p.dh_public asecret) encrypted)
            ≡ (
              ok (send (m3_message sealed)),
              with_secret
                  (waiting controller (stored id aseed) csecret)
                  (common_secret asecret csecret),
            ))
          × (handle p
                (with_secret
                  (waiting controller (stored id aseed) csecret)
                  (common_secret asecret csecret))
                accessory_m4
              ≡ (
                ok (done keys),
                completed
                    (waiting controller (stored id aseed) csecret)
                    (common_secret asecret csecret),
              ))
          × (session_keys p (common_secret asecret csecret) ≡ ok keys)
    unfolding handle dispatch handle_m2 handle_m4 after_m2 after_m4 start new_with_ephemeral build
        from_secret diffie_hellman
    handle_runs controller id aseed csecret asecret key encrypted sealed k e s =
        let c1 = waiting controller (stored id aseed) csecret in
        let same = laws.shared asecret csecret in
        let shared = common_secret asecret csecret in
        let (keys, derived) = session_keys_ok shared in
        (
          keys,
          ap (after_m2 p c1) (
                answer_m2_ok c1 aseed asecret key encrypted sealed refl
                  (subst (λ x. derive_key p x pv_encrypt_salt pv_encrypt_info ≡ ok key) same k) e s)
              ∙ ap (λ x. (ok (send (m3_message sealed)), with_secret c1 x)) (sym same),
          ap (after_m4 p (with_secret c1 shared))
              (answer_m4_ok (with_secret c1 shared) shared keys refl derived),
          derived,
        )

    -- With the accessory of the stored pairing, which derives its keys from its own side of the
    -- exchange, the client answers M2 with M3 and M4 with session keys, and these are the keys that
    -- the accessory derives. The cipher seals both sub-TLVs.
    pub handle_agrees :
        (controller : ControllerKeypair) (id aseed csecret asecret key encrypted sealed : List ℕ)
        → derive_key p (common_secret asecret csecret) pv_encrypt_salt pv_encrypt_info ≡ ok key
        → p.chacha.seal key pv_nonce []
            (sub_tlv aseed id (m2_signed p (p.dh_public asecret) id (p.dh_public csecret)))
          ≡ some encrypted
        → p.chacha.seal key (hap_nonce nonce_m3) [] (
            sub_tlv controller.signing controller.id
              (m3_signed p (p.dh_public csecret) controller.id (p.dh_public asecret)))
          ≡ some sealed
        → (c2 c3 : PairVerifyClient) × (keys : SessionKeys) × (handle p
              (waiting controller (stored id aseed) csecret)
              (accessory_m2 (p.dh_public asecret) encrypted)
            ≡ (ok (send (m3_message sealed)), c2))
          × (handle p c2 accessory_m4 ≡ (ok (done keys), c3))
          × (session_keys p (common_secret asecret csecret) ≡ ok keys)
    handle_agrees controller id aseed csecret asecret key encrypted sealed k e s =
        let c1 = waiting controller (stored id aseed) csecret in
        let shared = common_secret asecret csecret in
        let (keys, first, second, derived) =
          handle_runs controller id aseed csecret asecret key encrypted sealed k e s in
        (with_secret c1 shared, completed c1 shared, keys, first, second, derived)
