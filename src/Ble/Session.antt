-- ===== src/Ble/Session.antt =====
-- crates/hap-ble/src/session.rs: the encrypted channel after Pair Verify. A key and a counter for
-- each direction. `counter += 1` is taken as a release build computes it, modulo 2 ^ 64.
use hap_rust.Common.{
  ℕ, ◌+◌, ◌%◌, ◌^◌, List, [], ◌++◌, Result, ok, err, stuck, replicate, to_le_bytes,
}
use hap_rust.Crypto.Aead.{Chacha, chacha20poly1305_seal, chacha20poly1305_open}
use hap_rust.Ble.Types.{BleError, crypto}

unfoldable pub nonce : ℕ → List ℕ
nonce counter = replicate 4 0 ++ to_le_bytes 8 counter

pub record BleSession : Type 0 where
  pub read_key : List ℕ
  pub write_key : List ℕ
  pub send_counter : ℕ
  pub recv_counter : ℕ

abbrev pub new : List ℕ → List ℕ → BleSession
new read_key write_key = record {
  read_key = read_key;
  write_key = write_key;
  send_counter = 0;
  recv_counter = 0;
}

module _ (c : Chacha) where
  -- A counter steps only if the cipher succeeds.
  unfoldable pub seal : BleSession → List ℕ → Result BleError (List ℕ) × BleSession
  unfolding chacha20poly1305_seal
  seal s pdu = elim (chacha20poly1305_seal c s.write_key (nonce s.send_counter) [] pdu) [
    | ok out ↦ (ok out, record s { send_counter = (s.send_counter + 1) % 2 ^ 64 })
    | err e ↦ (err (crypto e), s)
    | stuck ↦ (stuck, s)
  ]

  unfoldable pub open_pdu : BleSession → List ℕ → Result BleError (List ℕ) × BleSession
  unfolding chacha20poly1305_open
  open_pdu s bytes = elim (chacha20poly1305_open c s.read_key (nonce s.recv_counter) [] bytes) [
    | ok out ↦ (ok out, record s { recv_counter = (s.recv_counter + 1) % 2 ^ 64 })
    | err e ↦ (err (crypto e), s)
    | stuck ↦ (stuck, s)
  ]
