-- ===== src/Crypto/Broadcast/Exact.antt =====
-- What `open` accepts.
use hap_rust.Common.{
  ℕ, ◌-◌, ◌≡◌, refl, sym, ap, ◌∙◌, ◌↔◌, List, ◌++◌, ok, when_ok, unless_err, length, take, drop,
  length-append, length-take, take-append-drop, take-append, drop-append, arith, ltb, le→ltb,
  ok-injective,
}
use hap_rust.Crypto.Types.{aead}
use hap_rust.Crypto.PairVerify.{bytes_eq}
use hap_rust.Crypto.PairVerify.Safety.{bytes_eq→≡}
use hap_rust.Crypto.PairVerify.Handshake.{bytes_eq_refl}
use hap_rust.Crypto.Broadcast.{
  StreamCrates, StreamLaws, BroadcastKey, nonce, mac_data, poly1305_key, partial_tag, seal,
  open_text,
}

module _ (c : StreamCrates) (laws : StreamLaws c) (key : BroadcastKey) (gsn : ℕ) (id : List ℕ) where
  length-partial_tag : (ct : List ℕ) → length (partial_tag c key.bytes (nonce gsn) ct id) ≡ 4
  unfolding partial_tag
  length-partial_tag ct = omega (
    arith,
    length-take 4 (c.poly1305 (poly1305_key c key.bytes (nonce gsn)) (mac_data id ct)),
    laws.tag_len (poly1305_key c key.bytes (nonce gsn)) (mac_data id ct),
  )

  -- A text that ends in the tag of what stands before it.
  open_tagged :
      (ct tag : List ℕ)
      → length tag ≡ 4
      → partial_tag c key.bytes (nonce gsn) ct id ≡ tag
      → open_text c key gsn (ct ++ tag) id ≡ ok (c.apply_keystream key.bytes (nonce gsn) 64 ct)
  unfolding open_text
  open_tagged ct tag four e =
      let len = length-append ct tag in
      rw (
        le→ltb 4 (length (ct ++ tag)) (omega (arith, len)),
        take-append (length (ct ++ tag) - 4) ct tag (omega (arith, len)),
        drop-append (length (ct ++ tag) - 4) ct tag (omega (arith, len)),
        e,
        bytes_eq_refl tag,
      )

  pub open_text-seal : (pt : List ℕ) → open_text c key gsn (seal c key gsn pt id) id ≡ ok pt
  unfolding seal
  open_text-seal pt =
      let ct = c.apply_keystream key.bytes (nonce gsn) 64 pt in
      open_tagged ct _ (length-partial_tag ct) refl
      ∙ ap ok (laws.involutive key.bytes (nonce gsn) 64 pt)

  pub seal-open_text :
      (text : List ℕ) {pt : List ℕ}
      → open_text c key gsn text id ≡ ok pt
      → seal c key gsn pt id ≡ text
  unfolding open_text seal
  seal-open_text text {pt} h =
      let ct = take (length text - 4) text in
      let tag4 = drop (length text - 4) text in
      let tag = partial_tag c key.bytes (nonce gsn) ct id in
      let message = c.apply_keystream key.bytes (nonce gsn) 64 ct in
      let (same, opened) =
        when_ok (bytes_eq tag tag4) aead (ok message)
          (unless_err (ltb (length text) 4) aead _ h).1 in
      let back : c.apply_keystream key.bytes (nonce gsn) 64 pt ≡ ct =
        ap (c.apply_keystream key.bytes (nonce gsn) 64) (sym (ok-injective message pt opened))
        ∙ laws.involutive key.bytes (nonce gsn) 64 ct in
      rw (back, bytes_eq→≡ tag tag4 same, take-append-drop (length text - 4) text) refl

  -- A broadcast text opens to a message exactly if it is that message sealed under the same key,
  -- number and id.
  pub open_text_iff :
      (text pt : List ℕ) → (open_text c key gsn text id ≡ ok pt) ↔ (seal c key gsn pt id ≡ text)
  open_text_iff text pt =
      (seal-open_text text, λ e. ap (λ t. open_text c key gsn t id) (sym e) ∙ open_text-seal pt)
