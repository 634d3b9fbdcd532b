-- ===== src/Crypto/Primitives.antt =====
-- crates/hap-crypto/src/kdf.rs, x25519.rs and keys.rs: the wrappers of the primitives. HKDF, X25519
-- and Ed25519 are the crates `hkdf`, `x25519-dalek` and `ed25519-dalek`; they are a parameter. A
-- string is given by its UTF-8 bytes, a key by its bytes.
use hap_rust.Common.{ℕ, ◌≡◌, List, Bool, true, Option, some, Result, ok_or, guard, ◌>>◌, length}
use hap_rust.Crypto.Types.{CryptoError, kdf, signature}
use hap_rust.Crypto.Aead.{Chacha, ChachaLaws}

pub record Primitives : Type 0 where
  pub chacha : Chacha
  -- Input key, salt and info to so many bytes; `none` where too many are asked for.
  pub hkdf_expand : List ℕ → List ℕ → List ℕ → ℕ → Option (List ℕ)
  -- The public key of a secret, and the secret shared with a peer's public key.
  pub dh_public : List ℕ → List ℕ
  pub dh : List ℕ → List ℕ → List ℕ
  -- `VerifyingKey::from_bytes` accepts the bytes.
  pub is_verifying_key : List ℕ → Bool
  pub verifying_key : List ℕ → List ℕ
  pub sign_with : List ℕ → List ℕ → List ℕ
  pub verify_strict : List ℕ → List ℕ → List ℕ → Bool

-- What the crates document: HKDF fails only for more than 255 * 64 bytes, both ends of X25519 share
-- one secret, public keys have 32 bytes and signatures 64, and a signature verifies under its key.
pub record PrimitiveLaws (p : Primitives) : Type 0 where
  pub chacha_laws : ChachaLaws p.chacha
  pub expands : (ikm salt info : List ℕ) → (k : List ℕ) × (p.hkdf_expand ikm salt info 32 ≡ some k)
  pub shared : (a b : List ℕ) → p.dh a (p.dh_public b) ≡ p.dh b (p.dh_public a)
  pub dh_public_len : (a : List ℕ) → length (p.dh_public a) ≡ 32
  pub key_len : (seed : List ℕ) → length (p.verifying_key seed) ≡ 32
  pub signature_len : (seed m : List ℕ) → length (p.sign_with seed m) ≡ 64
  pub key_accepted : (seed : List ℕ) → p.is_verifying_key (p.verifying_key seed) ≡ true
  pub verifies :
      (seed m : List ℕ) → p.verify_strict (p.verifying_key seed) m (p.sign_with seed m) ≡ true

pub record EphemeralKeypair : Type 0 where
  pub secret : List ℕ
  pub public_key : List ℕ

pub record ControllerKeypair : Type 0 where
  pub id : List ℕ
  pub signing : List ℕ

module _ (p : Primitives) where
  unfoldable pub hkdf_sha512 : (ikm salt info : List ℕ) → ℕ → Result CryptoError (List ℕ)
  hkdf_sha512 ikm salt info len =
      ok_or (p.hkdf_expand ikm salt info len) (kdf "requested output length exceeds 255 * HashLen")

  unfoldable pub from_secret : List ℕ → EphemeralKeypair
  from_secret scalar = record { secret = scalar; public_key = p.dh_public scalar }

  unfoldable pub diffie_hellman : EphemeralKeypair → List ℕ → List ℕ
  diffie_hellman pair peer_public = p.dh pair.secret peer_public

  unfoldable pub x25519_shared : List ℕ → List ℕ → List ℕ
  unfolding from_secret diffie_hellman
  x25519_shared secret peer_public = p.dh secret peer_public

  unfoldable pub ltpk : ControllerKeypair → List ℕ
  ltpk k = p.verifying_key k.signing

  unfoldable pub sign : ControllerKeypair → List ℕ → List ℕ
  sign k msg = p.sign_with k.signing msg

  unfoldable pub verify_ed25519 : (key msg sig : List ℕ) → Result CryptoError (Unit {0})
  verify_ed25519 key msg sig = do
    guard (p.is_verifying_key key) signature
    guard (p.verify_strict key msg sig) signature
