-- ===== src/Ble/Pdu/Exchange/Secure.antt =====
-- The encrypted exchange: every fragment is sealed on its own, and the counters stay in step.
use Prim.Native.String.{String}
use hap_rust.Common.{
  ℕ, suc, ◌+◌, ◌-◌, ◌^◌, ◌<◌, ◌≡◌, ap, ◌∙◌, List, [], ◌∷◌, ◌++◌, some, ok, length, All, concat,
  arith, max,
}
use mathlib.Core.Path.{subst}
use hap_rust.Crypto.Aead.{
  Chacha, ChachaLaws, encrypt, decrypt, chacha20poly1305_seal, chacha20poly1305_open,
}
use hap_rust.Ble.Types.{OpCode}
use hap_rust.Ble.Session.{nonce, BleSession, seal, open_pdu}
use hap_rust.Ble.Pdu.{
  encode_request, fragment, GattConnection, write_all, receive, write_sealed, read_opened,
  request_secure,
}
use hap_rust.Ble.Pdu.Exchange.{
  Accepts, Delivers, length-response_fragments, write_all-Accepts, receive-response,
  response_fragments,
}

module _ (c : Chacha) (key : List ℕ) where
  -- The fragments sealed one by one from the counter `n`.
  abbrev pub Sealed : ℕ → List (List ℕ) → List (List ℕ) → Type 0
  Sealed n [] [] = Unit {0}
  Sealed n (f ∷ fs) (ct ∷ cts) = (c.seal key (nonce n) [] f ≡ some ct) × Sealed (suc n) fs cts
  Sealed n _ _ = ⊥

abbrev session_at : (read_key write_key : List ℕ) → (send recv : ℕ) → BleSession
session_at rk wk n m = record { read_key = rk; write_key = wk; send_counter = n; recv_counter = m }

module _ {S : Type 0} (gatt : GattConnection S) (char_uuid : String) (c : Chacha)
    (rk wk : List ℕ) where
  seal_step :
      (n m : ℕ) (f ct : List ℕ)
      → n < 2 ^ 64 - 1
      → c.seal wk (nonce n) [] f ≡ some ct
      → seal c (session_at rk wk n m) f ≡ (ok ct, session_at rk wk (suc n) m)
  unfolding seal chacha20poly1305_seal encrypt
  seal_step n m f ct h e = ground (arith, e)

  open_step :
      (n m : ℕ) (f ct : List ℕ)
      → m < 2 ^ 64 - 1
      → c.open_sealed rk (nonce m) [] ct ≡ some f
      → open_pdu c (session_at rk wk n m) ct ≡ (ok f, session_at rk wk n (suc m))
  unfolding open_pdu chacha20poly1305_open decrypt
  open_step n m f ct h e = ground (arith, e)

  write_sealed_step :
      (n m : ℕ) (f ct : List ℕ) (s s' : S)
      → n < 2 ^ 64 - 1
      → c.seal wk (nonce n) [] f ≡ some ct
      → gatt.write char_uuid ct s ≡ (ok tt, s')
      → write_sealed gatt char_uuid c f (session_at rk wk n m, s)
        ≡ (ok tt, (session_at rk wk (suc n) m, s'))
  unfolding write_sealed
  write_sealed_step n m f ct s s' h e w = ground (arith, seal_step n m f ct h e, w)

  read_opened_step :
      (n m : ℕ) (f ct : List ℕ) (s s' : S)
      → m < 2 ^ 64 - 1
      → c.open_sealed rk (nonce m) [] ct ≡ some f
      → gatt.read char_uuid s ≡ (ok ct, s')
      → read_opened gatt char_uuid c (session_at rk wk n m, s)
        ≡ (ok f, (session_at rk wk n (suc m), s'))
  unfolding read_opened
  read_opened_step n m f ct s s' h e r = ground (arith, open_step n m f ct h e, r)

  -- A link that takes the sealed fragments takes the fragments through `write_sealed`.
  Sealed-Accepts :
      (n m : ℕ) (fs cts : List (List ℕ)) (s s' : S)
      → n + length fs < 2 ^ 64
      → Sealed c wk n fs cts
      → Accepts (gatt.write char_uuid) s cts s'
      → Accepts
          (write_sealed gatt char_uuid c)
          (session_at rk wk n m, s)
          fs
          (session_at rk wk (n + length fs) m, s')
  Sealed-Accepts n m [] [] s s' h e a = rw a (ap (λ k. (session_at rk wk k m, s')) (omega arith))
  Sealed-Accepts n m [] (ct ∷ cts) s s' h e a = absurd e
  Sealed-Accepts n m (f ∷ fs) [] s s' h e a = absurd e
  Sealed-Accepts n m (f ∷ fs) (ct ∷ cts) s s' h (e, es) (t, w, a) = (
    (session_at rk wk (suc n) m, t),
    write_sealed_step n m f ct s t (omega arith) e w,
    subst
        (λ k.
          Accepts (write_sealed gatt char_uuid c) (session_at rk wk (suc n) m, t) fs
            (session_at rk wk k m, s'))
        (omega arith) (Sealed-Accepts (suc n) m fs cts t s' (omega arith) es a),
  )

  -- A link that delivers sealed fragments delivers the fragments through `read_opened`.
  opened-Delivers :
      (n m : ℕ) (fs cts : List (List ℕ)) (s s' : S)
      → ChachaLaws c
      → m + length fs < 2 ^ 64
      → Sealed c rk m fs cts
      → Delivers (gatt.read char_uuid) s cts s'
      → Delivers
          (read_opened gatt char_uuid c)
          (session_at rk wk n m, s)
          fs
          (session_at rk wk n (m + length fs), s')
  opened-Delivers n m [] [] s s' laws h e d =
      rw d (ap (λ k. (session_at rk wk n k, s')) (omega arith))
  opened-Delivers n m [] (ct ∷ cts) s s' laws h e d = absurd e
  opened-Delivers n m (f ∷ fs) [] s s' laws h e d = absurd e
  opened-Delivers n m (f ∷ fs) (ct ∷ cts) s s' laws h (e, es) (t, r, d) = (
    (session_at rk wk n (suc m), t),
    read_opened_step n m f ct s t (omega arith) (laws.opens rk (nonce m) [] f ct e) r,
    subst
        (λ k.
          Delivers (read_opened gatt char_uuid c) (session_at rk wk n (suc m), t) fs
            (session_at rk wk n k, s'))
        (omega arith) (opened-Delivers n (suc m) fs cts t s' laws (omega arith) es d),
  )

  request_secure_step :
      (op : OpCode) (tid iid : ℕ) (body : List ℕ) (n : ℕ) (s t : BleSession × S)
      → write_all
          (write_sealed gatt char_uuid c)
          (fragment (encode_request op tid iid body) (max (n - 16) 1))
          s
        ≡ (ok tt, t)
      → request_secure gatt char_uuid c op tid iid body n s
        ≡ receive (read_opened gatt char_uuid c) t
  unfolding request_secure
  request_secure_step op tid iid body n s t e = ground (arith, e)

  abbrev pub plain_fragments : OpCode → (tid iid : ℕ) → List ℕ → ℕ → List (List ℕ)
  plain_fragments op tid iid body n = fragment (encode_request op tid iid body) (max (n - 16) 1)

  -- After Pair Verify: where the link takes the request's fragments, each sealed under the write
  -- key at its own counter, and delivers the fragments of a response, each sealed under the read
  -- key at its own counter, `request_secure` returns the response and both counters have stepped
  -- once for each fragment.
  pub request_secure-response :
      (op : OpCode) (tid iid : ℕ) (body : List ℕ) (n sent received control tid' status : ℕ)
      (b0 : List ℕ) (cs cts rts : List (List ℕ)) (s t s' : S)
      → ChachaLaws c
      → length (b0 ++ concat cs) < 2 ^ 16
      → All (λ d. 0 < length d) cs
      → length cs < 64
      → sent + length (plain_fragments op tid iid body n) < 2 ^ 64
      → received + suc (length cs) < 2 ^ 64
      → Sealed c wk sent (plain_fragments op tid iid body n) cts
      → Accepts (gatt.write char_uuid) s cts t
      → Sealed c rk received (response_fragments control tid' status b0 cs) rts
      → Delivers (gatt.read char_uuid) t rts s'
      → request_secure gatt char_uuid c op tid iid body n (session_at rk wk sent received, s) ≡ (
        ok (record { tid = tid'; status = status; body = b0 ++ concat cs }),
        (
          session_at rk wk
              (sent + length (plain_fragments op tid iid body n))
              (received + suc (length cs)),
          s',
        ),
      )
  request_secure-response op tid iid body n sent received control tid' status b0 cs cts rts s t s'
        laws fits full few roomy roomy' sealed a sealed' d =
      let after = sent + length (plain_fragments op tid iid body n) in
      let count = length-response_fragments control tid' status b0 cs in
      request_secure_step op tid iid body n (session_at rk wk sent received, s)
        (session_at rk wk after received, t)
        (write_all-Accepts (write_sealed gatt char_uuid c) (session_at rk wk sent received, s)
          (plain_fragments op tid iid body n) (session_at rk wk after received, t)
          (Sealed-Accepts sent received (plain_fragments op tid iid body n) cts s t roomy sealed a))
      ∙ receive-response (read_opened gatt char_uuid c) control tid' status b0 cs
          (session_at rk wk after received, t)
          (session_at rk wk after (received + suc (length cs)), s') fits full few
          (subst
            (λ k.
              Delivers (read_opened gatt char_uuid c) (session_at rk wk after received, t)
                (response_fragments control tid' status b0 cs)
                (session_at rk wk after (received + k), s'))
            count
            (opened-Delivers after received (response_fragments control tid' status b0 cs) rts t s'
              laws (omega (arith, count)) sealed' d))
