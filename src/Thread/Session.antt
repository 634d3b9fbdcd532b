-- ===== src/Thread/Session.antt =====
-- crates/hap-thread/src/session.rs: the controller's end of a verified CoAP session. Three keys, each
-- with its own counter; a counter steps only if the cipher succeeds.
use hap_rust.Common.{
  ℕ, ◌+◌, ◌%◌, ◌^◌, List, [], ◌++◌, Result, ok, err, stuck, replicate, to_le_bytes,
}
use hap_rust.Crypto.Aead.{Chacha, chacha20poly1305_seal, chacha20poly1305_open}
use hap_rust.Crypto.PairVerify.Types.{SessionKeys}
use hap_rust.Thread.Types.{ThreadError, crypto}

unfoldable pub counter_nonce : ℕ → List ℕ
counter_nonce counter = replicate 4 0 ++ to_le_bytes 8 counter

-- `wrapping_add(1)`
abbrev pub wrapping_suc : ℕ → ℕ
wrapping_suc n = (n + 1) % 2 ^ 64

pub record CoapSession : Type 0 where
  pub read_key : List ℕ
  pub write_key : List ℕ
  pub event_key : List ℕ
  pub send_ctr : ℕ
  pub recv_ctr : ℕ
  pub event_ctr : ℕ

abbrev pub new : SessionKeys → List ℕ → CoapSession
new keys event_key = record {
  read_key = keys.read_key;
  write_key = keys.write_key;
  event_key = event_key;
  send_ctr = 0;
  recv_ctr = 0;
  event_ctr = 0;
}

module _ (c : Chacha) where
  unfoldable pub seal_request : CoapSession → List ℕ → Result ThreadError (List ℕ) × CoapSession
  unfolding chacha20poly1305_seal counter_nonce
  seal_request s plaintext =
      elim (chacha20poly1305_seal c s.write_key (counter_nonce s.send_ctr) [] plaintext) [
        | ok ct ↦ (ok ct, record s { send_ctr = wrapping_suc s.send_ctr })
        | err e ↦ (err (crypto e), s)
        | stuck ↦ (stuck, s)
      ]

  unfoldable pub open_response : CoapSession → List ℕ → Result ThreadError (List ℕ) × CoapSession
  unfolding chacha20poly1305_open counter_nonce
  open_response s ciphertext =
      elim (chacha20poly1305_open c s.read_key (counter_nonce s.recv_ctr) [] ciphertext) [
        | ok pt ↦ (ok pt, record s { recv_ctr = wrapping_suc s.recv_ctr })
        | err e ↦ (err (crypto e), s)
        | stuck ↦ (stuck, s)
      ]

  unfoldable pub open_event : CoapSession → List ℕ → Result ThreadError (List ℕ) × CoapSession
  unfolding chacha20poly1305_open counter_nonce
  open_event s ciphertext =
      elim (chacha20poly1305_open c s.event_key (counter_nonce s.event_ctr) [] ciphertext) [
        | ok pt ↦ (ok pt, record s { event_ctr = wrapping_suc s.event_ctr })
        | err e ↦ (err (crypto e), s)
        | stuck ↦ (stuck, s)
      ]
