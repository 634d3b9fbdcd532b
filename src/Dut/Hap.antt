-- ===== src/Dut/Hap.antt =====
-- crates/hap-thread-dut/src/hap.rs: nonces and key derivation. Its TLV8 types, salts, infos and nonce
-- labels are byte for byte those of crates/hap-crypto, whose definitions stand for them.
use hap_rust.Common.{ℕ, ◌-◌, List, ◌++◌, Result, ok_or, length, replicate, take, min, to_le_bytes}
use hap_rust.Crypto.Primitives.{Primitives}
use hap_rust.Thread.Accessory.{DutError, protocol}

abbrev pub error_authentication : ℕ
error_authentication = 0x02

unfoldable pub nonce_label : List ℕ → List ℕ
nonce_label label =
    let n = min (length label) 8 in replicate 4 0 ++ (take n label ++ replicate (8 - n) 0)

unfoldable pub nonce_counter : ℕ → List ℕ
nonce_counter counter = replicate 4 0 ++ to_le_bytes 8 counter

unfoldable pub hkdf32 : Primitives → (ikm salt info : List ℕ) → Result DutError (List ℕ)
hkdf32 p ikm salt info = ok_or (p.hkdf_expand ikm salt info 32) (protocol "HKDF expand failed")
