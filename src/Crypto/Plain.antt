-- ===== src/Crypto/Plain.antt =====
-- Simple functions that can stand for the primitives and the arithmetic in concrete runs.
use hap_rust.Common.{ℕ, ◌%◌, ◌^◌, refl, List, [], ◌∷◌, some, true, replicate}
use hap_rust.Crypto.Aead.{plain_chacha, plain_chacha-laws}
use hap_rust.Crypto.Primitives.{Primitives, PrimitiveLaws, ControllerKeypair}
use hap_rust.Crypto.Srp.{Arithmetic, ArithmeticLaws}

abbrev pub plain : Primitives
plain = record {
  chacha = plain_chacha;
  hkdf_expand = λ ikm salt info n. some (replicate n 7);
  dh_public = λ a. replicate 32 1;
  dh = λ a b. replicate 32 2;
  is_verifying_key = λ k. true;
  verifying_key = λ seed. replicate 32 3;
  sign_with = λ seed m. replicate 64 4;
  verify_strict = λ k m s. true;
}

pub plain-laws : PrimitiveLaws plain
plain-laws = record {
  chacha_laws = plain_chacha-laws;
  expands = λ ikm salt info. (replicate 32 7, refl);
  shared = λ a b. refl;
  dh_public_len = λ a. refl;
  key_len = λ seed. refl;
  signature_len = λ seed m. refl;
  key_accepted = λ seed. refl;
  verifies = λ seed m. refl;
}

abbrev pub me : ControllerKeypair
me = record { id = 77 ∷ []; signing = 9 ∷ [] }

-- Small numbers and a constant hash.
abbrev pub first_byte : List ℕ → ℕ
first_byte [] = 0
first_byte (b ∷ bs) = b

abbrev pub small : Arithmetic
small = record {
  from_bytes_be = first_byte;
  to_bytes_be = λ n. n ∷ [];
  bits = λ n. 5;
  modpow = λ b e n. b ^ e % n;
  digest = λ m. 7 ∷ [];
  xor_bytes = λ a b. a;
}

pub small-laws : ArithmeticLaws small
small-laws = record { modpow_lem = λ b e n. refl }
