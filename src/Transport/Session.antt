-- ===== src/Transport/Session.antt =====
-- crates/hap-transport/src/session.rs: how a request leaves, and how the reader task turns what the
-- socket delivers into plaintext. The socket accepts every write; what it delivers, in which
-- pieces, is an argument.
pub mod Stream
use hap_rust.Common.{
  ℕ, zero, suc, List, [], ◌∷◌, ◌++◌, Option, none, some, Result, ok, err, stuck, Bool, length, drop,
  chunks,
}
use hap_rust.Crypto.Aead.{Chacha}
use hap_rust.Transport.Types.{TransportError}
use hap_rust.Transport.Record.{max_block, frame_len, encrypt_frame, decrypt_frame}

-- What a writer has done: its result, its counter and the bytes on the wire.
pub record Sending : Type 0 where
  pub result : Result TransportError (Unit {0})
  pub counter : ℕ
  pub wire : List ℕ

-- The reader task's buffers and its counter.
pub record Reader : Type 0 where
  pub cipher_buf : List ℕ
  pub plain_buf : List ℕ
  pub counter : ℕ

abbrev pub new_reader : Reader
new_reader = record { cipher_buf = []; plain_buf = []; counter = 0 }

module _ (c : Chacha) (key : List ℕ) where
  -- The loop over the blocks in `SecureSession::request`; `?` leaves it at the first error.
  unfoldable pub send_blocks : List (List ℕ) → ℕ → List ℕ → Sending
  send_blocks [] counter wire = record { result = ok tt; counter = counter; wire = wire }
  send_blocks (block ∷ blocks) counter wire =
      let (sealed, next) = encrypt_frame c key counter block in
      elim sealed [
        | ok frame ↦ send_blocks blocks next (wire ++ frame)
        | err e ↦ record { result = err e; counter = next; wire = wire }
        | stuck ↦ record { result = stuck; counter = next; wire = wire }
      ]

  unfoldable pub send : List ℕ → ℕ → Sending
  unfolding send_blocks
  send plaintext counter = send_blocks (chunks max_block plaintext) counter []

  -- The inner loop of `reader_task`: decrypt as many complete frames as the buffer holds.
  unfoldable pub drain_frames : ℕ → Reader → Result TransportError Reader
  drain_frames zero r = stuck
  drain_frames (suc fuel) r =
      let (opened, next) = decrypt_frame c key r.counter r.cipher_buf in
      elim opened [
        | ok (some block) ↦ drain_frames fuel (record {
          cipher_buf = drop (frame_len (length block)) r.cipher_buf;
          plain_buf = r.plain_buf ++ block;
          counter = next;
        })
        | ok none ↦ ok (record r { counter = next })
        | err e ↦ err e
        | stuck ↦ stuck
      ]

  -- One turn of the outer loop: the bytes of a read, and the frames that they complete. A frame has
  -- 18 bytes at least, so a round for each byte and one more are enough.
  unfoldable pub read_chunk : Reader → List ℕ → Result TransportError Reader
  unfolding drain_frames
  read_chunk r chunk =
      let buf = r.cipher_buf ++ chunk in
      drain_frames (suc (length buf)) (record r { cipher_buf = buf })

  unfoldable pub read_chunks : Reader → List (List ℕ) → Result TransportError Reader
  unfolding read_chunk
  read_chunks r [] = ok r
  read_chunks r (chunk ∷ cs) = elim (read_chunk r chunk) [
    | ok r' ↦ read_chunks r' cs
    | err e ↦ err e
    | stuck ↦ stuck
  ]
