-- ===== src/Dut/Session.antt =====
-- crates/hap-thread-dut/src/session.rs: the accessory's end of a verified CoAP session.
pub mod Lockstep
use hap_rust.Common.{ℕ, ◌+◌, ◌%◌, ◌^◌, List, [], Result, ok, err, stuck}
use hap_rust.Crypto.Aead.{Chacha, chacha20poly1305_seal, chacha20poly1305_open}
use hap_rust.Thread.Accessory.{DutError, crypto}
use hap_rust.Thread.Session.{wrapping_suc}
use hap_rust.Dut.Hap.{nonce_counter}

pub record AccessorySession : Type 0 where
  pub read_key : List ℕ
  pub write_key : List ℕ
  pub event_key : List ℕ
  pub recv_ctr : ℕ
  pub send_ctr : ℕ
  pub event_ctr : ℕ

abbrev pub new : (read_key write_key event_key : List ℕ) → AccessorySession
new read_key write_key event_key = record {
  read_key = read_key;
  write_key = write_key;
  event_key = event_key;
  recv_ctr = 0;
  send_ctr = 0;
  event_ctr = 0;
}

module _ (c : Chacha) where
  unfoldable pub open_request :
      AccessorySession → List ℕ → Result DutError (List ℕ) × AccessorySession
  unfolding chacha20poly1305_open nonce_counter
  open_request s ciphertext =
      elim (chacha20poly1305_open c s.write_key (nonce_counter s.recv_ctr) [] ciphertext) [
        | ok pt ↦ (ok pt, record s { recv_ctr = wrapping_suc s.recv_ctr })
        | err e ↦ (err (crypto e), s)
        | stuck ↦ (stuck, s)
      ]

  unfoldable pub seal_response :
      AccessorySession → List ℕ → Result DutError (List ℕ) × AccessorySession
  unfolding chacha20poly1305_seal nonce_counter
  seal_response s plaintext =
      elim (chacha20poly1305_seal c s.read_key (nonce_counter s.send_ctr) [] plaintext) [
        | ok ct ↦ (ok ct, record s { send_ctr = wrapping_suc s.send_ctr })
        | err e ↦ (err (crypto e), s)
        | stuck ↦ (stuck, s)
      ]

  unfoldable pub seal_event :
      AccessorySession → List ℕ → Result DutError (List ℕ) × AccessorySession
  unfolding chacha20poly1305_seal nonce_counter
  seal_event s plaintext =
      elim (chacha20poly1305_seal c s.event_key (nonce_counter s.event_ctr) [] plaintext) [
        | ok ct ↦ (ok ct, record s { event_ctr = wrapping_suc s.event_ctr })
        | err e ↦ (err (crypto e), s)
        | stuck ↦ (stuck, s)
      ]
