-- ===== src/Transport/Record.antt =====
-- crates/hap-transport/src/record.rs: the record layer, a frame for each block of plaintext. A
-- function that takes `&mut NonceCounter` returns its result and the counter as it stands after it.
pub mod Frames
use hap_rust.Common.{
  ℕ, ◌+◌, ◌%◌, ◌^◌, List, [], ◌∷◌, ◌++◌, Option, none, some, Result, ok, err, stuck, length, take,
  replicate, to_le_bytes, from_le_bytes, ltb, if◌then◌else◌,
}
use hap_rust.Crypto.Aead.{Chacha, tag_len, chacha20poly1305_seal, chacha20poly1305_open}
use hap_rust.Transport.Types.{TransportError, invalid_frame_length, decrypt}

abbrev pub max_block : ℕ
max_block = 1024

abbrev pub len_prefix : ℕ
len_prefix = 2

-- `NonceCounter` is a `u64`.
unfoldable pub nonce : ℕ → List ℕ
nonce counter = replicate 4 0 ++ to_le_bytes 8 counter

abbrev pub advance : ℕ → ℕ
advance counter = (counter + 1) % 2 ^ 64

abbrev pub frame_len : ℕ → ℕ
frame_len declared = len_prefix + declared + tag_len

module _ (c : Chacha) where
  -- The sealing and what follows it, for a block whose length fits.
  unfoldable pub seal_frame : List ℕ → ℕ → List ℕ → Result TransportError (List ℕ) × ℕ
  unfolding chacha20poly1305_seal
  seal_frame key counter block =
      let aad = to_le_bytes 2 (length block) in
      elim (chacha20poly1305_seal c key (nonce counter) aad block) [
        | ok ciphertext_and_tag ↦ (ok (aad ++ ciphertext_and_tag), advance counter)
        | _ ↦ (err (invalid_frame_length (length block)), counter)
      ]

  -- Behind the first guard the length fits 16 bits, so `u16::try_from` does not fail.
  unfoldable pub encrypt_frame : List ℕ → ℕ → List ℕ → Result TransportError (List ℕ) × ℕ
  unfolding seal_frame
  encrypt_frame key counter block =
      if ltb max_block (length block)
      then (err (invalid_frame_length (length block)), counter)
      else seal_frame key counter block

  unfoldable pub open_frame :
      List ℕ → ℕ → List ℕ → List ℕ → Result TransportError (Option (List ℕ)) × ℕ
  unfolding chacha20poly1305_open
  open_frame key counter aad ciphertext_and_tag =
      elim (chacha20poly1305_open c key (nonce counter) aad ciphertext_and_tag) [
        | ok plaintext ↦ (ok (some plaintext), advance counter)
        | _ ↦ (err decrypt, counter)
      ]

  -- `ok none` asks for more bytes.
  unfoldable pub decrypt_frame : List ℕ → ℕ → List ℕ → Result TransportError (Option (List ℕ)) × ℕ
  unfolding open_frame
  decrypt_frame key counter (b0 ∷ b1 ∷ rest) =
      let declared = from_le_bytes (b0 ∷ b1 ∷ []) in
      if ltb max_block declared
      then (err (invalid_frame_length declared), counter)
      else if ltb (len_prefix + length rest) (frame_len declared)
      then (ok none, counter)
      else open_frame key counter (b0 ∷ b1 ∷ []) (take (declared + tag_len) rest)
  decrypt_frame key counter _ = (ok none, counter)
