-- ===== src/Crypto/Broadcast.antt =====
-- crates/hap-crypto/src/broadcast.rs: notifications that an accessory puts into its advertisements. The
-- stream cipher and the authenticator are the crates `chacha20` and `poly1305`; they are a parameter.
pub mod Exact
use hap_rust.Common.{
  ℕ, zero, suc, ◌+◌, ◌-◌, ◌%◌, ◌≡◌, List, [], ◌∷◌, ◌++◌, Result, ok, err, map_err, ◌>>=◌, length,
  take, drop, replicate, ltb, ◌==◌, if◌then◌else◌, to_le_bytes,
}
use hap_rust.Crypto.Types.{CryptoError, aead}
use hap_rust.Crypto.Primitives.{Primitives, hkdf_sha512}
use hap_rust.Crypto.PairVerify.{bytes_eq}

-- A message under the key stream of a key and a nonce, from a byte of the stream on; and the tag that
-- a one-time key gives to data of whole blocks.
pub record StreamCrates : Type 0 where
  pub apply_keystream : (key nonce : List ℕ) → (position : ℕ) → List ℕ → List ℕ
  pub poly1305 : (key blocks : List ℕ) → List ℕ

-- What the crates document: the stream is added to the message, so adding it twice changes nothing
-- and the length stays; a tag has 16 bytes.
pub record StreamLaws (c : StreamCrates) : Type 0 where
  pub involutive :
      (k n : List ℕ) (p : ℕ) (m : List ℕ) → c.apply_keystream k n p (c.apply_keystream k n p m) ≡ m
  pub tag_len : (k m : List ℕ) → length (c.poly1305 k m) ≡ 16

-- "Broadcast-Encryption-Key"
abbrev pub broadcast_info : List ℕ
broadcast_info =
    b'B' ∷ b'r' ∷ b'o' ∷ b'a' ∷ b'd' ∷ b'c' ∷ b'a' ∷ b's' ∷ b't' ∷ b'-' ∷ b'E' ∷ b'n' ∷ b'c' ∷ b'r'
    ∷ b'y' ∷ b'p' ∷ b't' ∷ b'i' ∷ b'o' ∷ b'n' ∷ b'-' ∷ b'K' ∷ b'e' ∷ b'y' ∷ []

-- The 32 bytes of the key.
pub record BroadcastKey : Type 0 where
  pub bytes : List ℕ

abbrev pub from_bytes : List ℕ → BroadcastKey
from_bytes key = record { bytes = key }

unfoldable pub derive : Primitives → (ikm salt : List ℕ) → Result CryptoError BroadcastKey
unfolding hkdf_sha512
derive p ikm salt = hkdf_sha512 p ikm salt broadcast_info 32 >>= λ out. ok (from_bytes out)

-- `while d.len() % 16 != 0 { d.push(0) }`; at most fifteen rounds.
unfoldable pub pad : (fuel : ℕ) → List ℕ → List ℕ
pad zero d = d
pad (suc fuel) d = let more = pad fuel (d ++ 0 ∷ []) in if length d % 16 == 0 then d else more

unfoldable pub mac_data : (aad ciphertext : List ℕ) → List ℕ
unfolding pad
mac_data aad ciphertext =
    let d = pad 15 (pad 15 aad ++ ciphertext) in
    (d ++ to_le_bytes 8 (length aad)) ++ to_le_bytes 8 (length ciphertext)

-- The global state number as an IETF nonce.
abbrev pub nonce : (gsn : ℕ) → List ℕ
nonce gsn = replicate 4 0 ++ to_le_bytes 8 gsn

module _ (c : StreamCrates) where
  -- The first 32 bytes of block 0.
  unfoldable pub poly1305_key : (key nonce : List ℕ) → List ℕ
  poly1305_key key nonce = take 32 (c.apply_keystream key nonce 0 (replicate 64 0))

  -- The four bytes of the tag that are sent.
  unfoldable pub partial_tag : (key nonce ciphertext advertising_id : List ℕ) → List ℕ
  unfolding poly1305_key mac_data
  partial_tag key nonce ciphertext advertising_id =
      take 4 (c.poly1305 (poly1305_key key nonce) (mac_data advertising_id ciphertext))

  -- The message is encrypted from block 1 on.
  unfoldable pub seal : BroadcastKey → (gsn : ℕ) → (plaintext advertising_id : List ℕ) → List ℕ
  seal key gsn plaintext advertising_id =
      let ciphertext = c.apply_keystream key.bytes (nonce gsn) 64 plaintext in
      ciphertext ++ partial_tag key.bytes (nonce gsn) ciphertext advertising_id

  unfoldable pub open_text :
      BroadcastKey
      → (gsn : ℕ) → (combined_text advertising_id : List ℕ) → Result CryptoError (List ℕ)
  open_text key gsn combined_text advertising_id =
      if ltb (length combined_text) 4
      then err aead
      else let ciphertext = take (length combined_text - 4) combined_text in
        let tag4 = drop (length combined_text - 4) combined_text in
        if bytes_eq (partial_tag key.bytes (nonce gsn) ciphertext advertising_id) tag4
        then ok (c.apply_keystream key.bytes (nonce gsn) 64 ciphertext)
        else err aead
