-- ===== src/Ble/Pdu/Exchange/Writes.antt =====
-- What an encrypted request hands to the link.
use Prim.Native.String.{String}
use hap_rust.Common.{
  ℕ, zero, suc, ◌+◌, ◌-◌, ◌≤◌, ◌≡◌, refl, ◌⊎◌, inl, inr, List, [], ◌∷◌, ◌++◌, Result, ok, err,
  stuck, Bool-cases, Option-cases, leb, length, get_or, All, arith, max,
}
use hap_rust.Crypto.Aead.{Chacha, ChachaLaws, encrypt, chacha20poly1305_seal}
use hap_rust.Ble.Types.{BleError, OpCode}
use hap_rust.Ble.Session.{nonce, BleSession, seal}
use hap_rust.Ble.Pdu.{
  encode_request, fragment, reassemble, declared_total, max_response_fragments, GattConnection,
  write_all, collect, decode_all_read, receive_after, receive, write_sealed, read_opened,
  request_secure,
}
use hap_rust.Ble.Pdu.Fragments.{fragment_short}

-- The three ends of a step.
cases_of :
    {E A : Type 0} (r : Result E A) → ((a : A) × (r ≡ ok a)) ⊎ ((e : E) × (r ≡ err e)) ⊎ (r ≡ stuck)
cases_of (ok a) = inl (a, refl)
cases_of (err e) = inr (inl (e, refl))
cases_of stuck = inr (inr refl)

module _ {T : Type 0} (P : T → Type 0) where
  write_all_keeps :
      (m : ℕ) (put : List ℕ → T → Result BleError (Unit {0}) × T)
      → ((f : List ℕ) (t : T) → length f ≤ m → P t → P (put f t).1)
      → (fs : List (List ℕ)) (t : T) → All (λ f. length f ≤ m) fs
      → P t
      → P (write_all put fs t).1
  unfolding write_all
  write_all_keeps m put keeps [] t h i = i
  write_all_keeps m put keeps (f ∷ fs) t h i =
      let j = keeps f t h.0 i in
      elim (cases_of (put f t).0) [
        | inl (done, e) ↦ rw (e, write_all) (write_all_keeps m put keeps fs (put f t).1 h.1 j)
        | inr (inl (x, e)) ↦ rw (e, write_all) j
        | inr (inr e) ↦ rw (e, write_all) j
      ]

  module _ (next : T → Result BleError (List ℕ) × T) (keeps : (t : T) → P t → P (next t).1) where
    collect_keeps :
        (fuel : ℕ) (frags : List (List ℕ)) (t : T) → P t → P (collect next fuel frags t).1
    unfolding collect
    collect_keeps zero frags t i = i
    collect_keeps (suc fuel) frags t i =
        let j = keeps t i in
        elim (cases_of (reassemble frags)) [
          | inr (inl (x, e)) ↦ rw (e, collect) i
          | inr (inr e) ↦ rw (e, collect) i
          | inl (pdu, e) ↦
              elim (Bool-cases (leb (declared_total (get_or frags 0 [])) (length pdu))) [
                | inl whole ↦ rw (e, whole, collect) i
                | inr part ↦ elim (Bool-cases (leb max_response_fragments (length frags))) [
                  | inl many ↦ rw (e, part, many, collect) i
                  | inr few ↦ elim (cases_of (next t).0) [
                    | inl (f, r) ↦
                        rw (e, part, few, r, collect)
                          (collect_keeps fuel (frags ++ f ∷ []) (next t).1 j)
                    | inr (inl (x, r)) ↦ rw (e, part, few, r, collect) j
                    | inr (inr r) ↦ rw (e, part, few, r, collect) j
                  ]
                ]
              ]
        ]

    receive_keeps : (t : T) → P t → P (receive next t).1
    unfolding receive receive_after decode_all_read
    receive_keeps t i =
        let j = keeps t i in
        elim (cases_of (next t).0) [
          | inl (f, r) ↦
              rw (r, receive) (collect_keeps (suc max_response_fragments) (f ∷ []) (next t).1 j)
          | inr (inl (x, r)) ↦ rw (r, receive) j
          | inr (inr r) ↦ rw (r, receive) j
        ]

module _ {S : Type 0} (gatt : GattConnection S) (char_uuid : String) (c : Chacha)
    (laws : ChachaLaws c) (Inv : S → Type 0) where
  write_sealed_keeps :
      (limit : ℕ)
      → ((bytes : List ℕ) (s : S)
          → length bytes ≤ limit
          → Inv s
          → Inv (gatt.write char_uuid bytes s).1)
      → (f : List ℕ) (t : BleSession × S) → length f + 16 ≤ limit
      → Inv t.1
      → Inv (write_sealed gatt char_uuid c f t).1.1
  unfolding write_sealed seal chacha20poly1305_seal encrypt
  write_sealed_keeps limit writes f (session, s) h i =
      elim (Option-cases (c.seal session.write_key (nonce session.send_counter) [] f)) [
        | inl e ↦ rw (e, write_sealed) i
        | inr (ct, e) ↦
            let long = laws.tag session.write_key (nonce session.send_counter) [] f ct e in
            rw (e, write_sealed) (writes ct s (omega arith) i)
      ]

  read_opened_keeps :
      ((s : S) → Inv s → Inv (gatt.read char_uuid s).1)
      → (t : BleSession × S) → Inv t.1
      → Inv (read_opened gatt char_uuid c t).1.1
  unfolding read_opened
  read_opened_keeps reads (session, s) i =
      let j = reads s i in
      elim (cases_of (gatt.read char_uuid s).0) [
        | inl (bytes, e) ↦ rw (e, read_opened) j
        | inr (inl (x, e)) ↦ rw (e, read_opened) j
        | inr (inr e) ↦ rw (e, read_opened) j
      ]

  -- Whatever holds of the link and is kept by reads, and by writes of at most the fragment size, or of 19
  -- bytes where that is less, is kept by an encrypted request, however it ends: it makes no longer write.
  pub request_secure_writes :
      (op : OpCode) (tid iid : ℕ) (body : List ℕ) (n : ℕ) (session : BleSession) (s : S)
      → ((bytes : List ℕ) (t : S)
          → length bytes ≤ max n 19
          → Inv t
          → Inv (gatt.write char_uuid bytes t).1)
      → ((t : S) → Inv t → Inv (gatt.read char_uuid t).1)
      → Inv s
      → Inv (request_secure gatt char_uuid c op tid iid body n (session, s)).1.1
  unfolding request_secure
  request_secure_writes op tid iid body n session s writes reads i =
      let P : BleSession × S → Type 0 = λ t. Inv t.1 in
      let fs = fragment (encode_request op tid iid body) (max (n - 16) 1) in
      let put = write_sealed gatt char_uuid c in
      let j : Inv (write_all put fs (session, s)).1.1 =
        write_all_keeps P (max (max (n - 16) 1) 3) put
          (λ f t short k. write_sealed_keeps (max n 19) writes f t (omega arith) k) fs (session, s)
          (fragment_short (encode_request op tid iid body) (max (n - 16) 1)) i in
      elim (cases_of (write_all put fs (session, s)).0) [
        | inl (done, e) ↦
            rw (e, request_secure)
              (receive_keeps P (read_opened gatt char_uuid c) (read_opened_keeps reads)
                (write_all put fs (session, s)).1 j)
        | inr (inl (x, e)) ↦ rw (e, request_secure) j
        | inr (inr e) ↦ rw (e, request_secure) j
      ]
