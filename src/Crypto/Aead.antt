-- ===== src/Crypto/Aead.antt =====
-- crates/hap-crypto/src/aead.rs: ChaCha20-Poly1305 with HAP's nonces. The cipher itself is the
-- `chacha20poly1305` crate; it is a parameter, with the laws that its documentation gives.
use hap_rust.Common.{
  ℕ, ◌+◌, ◌-◌, ◌^◌, ◌≤◌, ◌≡◌, refl, List, [], ◌++◌, Option, none, some, Result, ok_or, length,
  length-append, replicate, take, take-append, ltb, le→ltb, if◌then◌else◌, min, arith,
}
use hap_rust.Crypto.Types.{CryptoError, aead}

-- Key, nonce, associated data and message, to the ciphertext with its tag; and back. `none` is the
-- crate's opaque error.
pub record Chacha : Type 0 where
  pub seal : List ℕ → List ℕ → List ℕ → List ℕ → Option (List ℕ)
  pub open_sealed : List ℕ → List ℕ → List ℕ → List ℕ → Option (List ℕ)

abbrev pub tag_len : ℕ
tag_len = 16

-- The longest message that the cipher takes.
abbrev pub max_message : ℕ
max_message = 2 ^ 38 - 64

-- What the crate documents: sealing fails only for a message that is too long, the tag adds 16
-- bytes, and opening with the same key, nonce and associated data gives the message back.
pub record ChachaLaws (c : Chacha) : Type 0 where
  pub seals :
      (k n a m : List ℕ) → length m ≤ max_message → (ct : List ℕ) × (c.seal k n a m ≡ some ct)
  pub tag : (k n a m ct : List ℕ) → c.seal k n a m ≡ some ct → length ct ≡ length m + tag_len
  pub opens : (k n a m ct : List ℕ) → c.seal k n a m ≡ some ct → c.open_sealed k n a ct ≡ some m

module _ (c : Chacha) where
  unfoldable pub encrypt : (k n a m : List ℕ) → Result CryptoError (List ℕ)
  encrypt k n a m = ok_or (c.seal k n a m) aead

  unfoldable pub decrypt : (k n a ct : List ℕ) → Result CryptoError (List ℕ)
  decrypt k n a ct = ok_or (c.open_sealed k n a ct) aead

  unfoldable pub chacha20poly1305_seal : (k n a m : List ℕ) → Result CryptoError (List ℕ)
  unfolding encrypt
  chacha20poly1305_seal k n a m = encrypt k n a m

  unfoldable pub chacha20poly1305_open : (k n a ct : List ℕ) → Result CryptoError (List ℕ)
  unfolding decrypt
  chacha20poly1305_open k n a ct = decrypt k n a ct

-- Four zero bytes, then at most eight bytes of the label, then zero bytes up to twelve.
unfoldable pub hap_nonce : List ℕ → List ℕ
hap_nonce label =
    let n = min (length label) 8 in replicate 4 0 ++ (take n label ++ replicate (8 - n) 0)

-- A cipher for concrete runs: the tag is sixteen zero bytes.
abbrev plain_seal : List ℕ → List ℕ → List ℕ → List ℕ → Option (List ℕ)
plain_seal k n a m = some (m ++ replicate 16 0)

abbrev plain_open : List ℕ → List ℕ → List ℕ → List ℕ → Option (List ℕ)
plain_open k n a ct = if ltb (length ct) 16 then none else some (take (length ct - 16) ct)

abbrev pub plain_chacha : Chacha
plain_chacha = record { seal = plain_seal; open_sealed = plain_open }

plain_opens : (m : List ℕ) → plain_open [] [] [] (m ++ replicate 16 0) ≡ some m
plain_opens m =
    let len = length-append m (replicate 16 0) in
    rw (le→ltb 16 (length (m ++ replicate 16 0)) (omega (arith, len))) (
      rw (take-append (length (m ++ replicate 16 0) - 16) m (replicate 16 0) (omega (arith, len)))
        refl)

pub plain_chacha-laws : ChachaLaws plain_chacha
plain_chacha-laws = record {
  seals = λ k n a m h. (m ++ replicate 16 0, refl);
  tag = λ k n a m ct e. ground (arith, length-append m (replicate 16 0));
  opens = λ k n a m ct e. ground (arith, plain_opens m);
}
