-- ===== src/Transport/Runs.antt =====
-- Concrete runs of the record layer and the session, over a cipher whose tag is sixteen zero bytes.
use hap_rust.Common.{
  ℕ, ◌≡◌, refl, List, [], ◌∷◌, ◌++◌, none, ok, replicate, take, drop, concat, chunks, to_le_bytes,
}
use hap_rust.Crypto.Aead.{plain_chacha, plain_chacha-laws}
use hap_rust.Transport.Record.{encrypt_frame, decrypt_frame, nonce}
use hap_rust.Transport.Record.Frames.{decrypt_frame_partial}
use hap_rust.Transport.Session.{send, read_chunks}
use hap_rust.Transport.Session.Stream.{read_chunks-send}

abbrev hello : List ℕ
hello = 104 ∷ 105 ∷ []

abbrev hello_frame : List ℕ
hello_frame = 2 ∷ 0 ∷ (hello ++ replicate 16 0)

encrypt_hello : encrypt_frame plain_chacha [] 7 hello ≡ (ok hello_frame, 8)
unfolding encrypt_frame to_le_bytes
encrypt_hello = refl

nonce_layout : nonce 0x0102 ≡ 0 ∷ 0 ∷ 0 ∷ 0 ∷ 2 ∷ 1 ∷ 0 ∷ 0 ∷ 0 ∷ 0 ∷ 0 ∷ 0 ∷ []
unfolding nonce to_le_bytes
nonce_layout = refl

decrypt_frame_partial_example : decrypt_frame plain_chacha [] 7 (2 ∷ 0 ∷ 104 ∷ []) ≡ (ok none, 7)
decrypt_frame_partial_example =
    decrypt_frame_partial plain_chacha plain_chacha-laws [] 7 hello (2 ∷ 0 ∷ 104 ∷ [])
      (105 ∷ replicate 16 0) 8 encrypt_hello (λ e. cc)

-- Two frames, delivered in three pieces.
abbrev long_text : List ℕ
long_text = replicate 1030 65

abbrev wire : List ℕ
wire = (send plain_chacha [] long_text 3).wire

wire_pieces : concat (take 1 wire ∷ take 1050 (drop 1 wire) ∷ drop 1050 (drop 1 wire) ∷ []) ≡ wire
unfolding send chunks encrypt_frame to_le_bytes
wire_pieces = refl

read_chunks-send_example :
    ((send plain_chacha [] long_text 3).result ≡ ok tt)
    × (read_chunks plain_chacha []
          (record { cipher_buf = []; plain_buf = 66 ∷ []; counter = 3 })
          (take 1 wire ∷ take 1050 (drop 1 wire) ∷ drop 1050 (drop 1 wire) ∷ [])
        ≡ ok (record {
          cipher_buf = [];
          plain_buf = 66 ∷ long_text;
          counter = (send plain_chacha [] long_text 3).counter;
        }))
read_chunks-send_example =
    read_chunks-send plain_chacha plain_chacha-laws [] long_text 3 (66 ∷ []) _ wire_pieces
