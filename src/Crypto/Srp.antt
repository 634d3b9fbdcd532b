-- ===== src/Crypto/Srp.antt =====
-- crates/hap-crypto/src/srp.rs: SRP-6a, the client and the server. Numbers of the `num-bigint` crate
-- are natural numbers; its conversions and its modular power, and the hash, are a parameter. A
-- difference is written as the code writes it: the modulus is added before the subtraction.
pub mod Group
pub mod Agreement
use hap_rust.Common.{
  ℕ, ◌+◌, ◌-◌, ◌*◌, ◌/◌, ◌%◌, ◌^◌, ◌≡◌, List, [], ◌∷◌, ◌++◌, Result, ok, err, ◌>>=◌, ◌>>◌, guard,
  not, length, replicate, leb, ◌==◌, if◌then◌else◌,
}
use hap_rust.Crypto.Types.{CryptoError, srp_bad_parameters, srp_proof_mismatch}
use hap_rust.Crypto.PairVerify.{bytes_eq}

pub record Arithmetic : Type 0 where
  pub from_bytes_be : List ℕ → ℕ
  pub to_bytes_be : ℕ → List ℕ
  pub bits : ℕ → ℕ
  pub modpow : (base exponent modulus : ℕ) → ℕ
  pub digest : List ℕ → List ℕ
  pub xor_bytes : List ℕ → List ℕ → List ℕ

-- What the crate documents of `modpow`.
pub record ArithmeticLaws (z : Arithmetic) : Type 0 where
  pub modpow_lem : (b e n : ℕ) → z.modpow b e n ≡ b ^ e % n

pub record SrpGroup : Type 0 where
  pub n : ℕ
  pub g : ℕ
  pub n_len : ℕ

pub record SrpClient : Type 0 where
  pub group : SrpGroup
  pub username : List ℕ
  pub a : ℕ
  pub a_pub : ℕ

pub record SrpServer : Type 0 where
  pub group : SrpGroup
  pub username : List ℕ
  pub salt : List ℕ
  pub v : ℕ
  pub b : ℕ
  pub b_pub : ℕ

module _ (z : Arithmetic) where
  unfoldable pub new_group : (n_be g_be : List ℕ) → Result CryptoError SrpGroup
  new_group n_be g_be = do
    let n = z.from_bytes_be n_be
    guard (not (n == 0)) (srp_bad_parameters "group modulus N is zero")
    ok (record { n = n; g = z.from_bytes_be g_be; n_len = (z.bits n + 7) / 8 })

  unfoldable pub pad_be : ℕ → ℕ → List ℕ
  pad_be value width =
      let raw = z.to_bytes_be value in
      if leb width (length raw) then raw else replicate (width - length raw) 0 ++ raw

  unfoldable pub pad : SrpGroup → ℕ → List ℕ
  unfolding pad_be
  pad group value = pad_be value group.n_len

  unfoldable pub compute_k : SrpGroup → ℕ
  unfolding pad
  compute_k group = z.from_bytes_be (z.digest (z.to_bytes_be group.n ++ pad group group.g))

  -- The byte 58 is a colon.
  unfoldable pub compute_x : (salt username password : List ℕ) → ℕ
  compute_x salt username password =
      z.from_bytes_be (z.digest (salt ++ z.digest (username ++ (58 ∷ []) ++ password)))

  unfoldable pub compute_v : SrpGroup → ℕ → ℕ
  compute_v group x = z.modpow group.g x group.n

  unfoldable pub compute_u : SrpGroup → (a_pub b_pub : ℕ) → ℕ
  unfolding pad
  compute_u group a_pub b_pub = z.from_bytes_be (z.digest (pad group a_pub ++ pad group b_pub))

  unfoldable pub compute_b : SrpGroup → (k v b_priv : ℕ) → ℕ
  compute_b group k v b_priv = ((k * v) % group.n + z.modpow group.g b_priv group.n) % group.n

  unfoldable pub hash_premaster : SrpGroup → ℕ → List ℕ
  unfolding pad
  hash_premaster group premaster = z.digest (pad group premaster)

  unfoldable pub proof_m1 :
      SrpGroup → (username salt : List ℕ) → (a_pub b_pub : ℕ) → List ℕ → List ℕ
  unfolding pad
  proof_m1 group username salt a_pub b_pub session_key =
      let h_xor =
        z.xor_bytes (z.digest (z.to_bytes_be group.n)) (z.digest (z.to_bytes_be group.g)) in
      z.digest
        (h_xor ++ z.digest username ++ salt ++ pad group a_pub ++ pad group b_pub ++ session_key)

  unfoldable pub proof_m2 : SrpGroup → ℕ → (m1 session_key : List ℕ) → List ℕ
  unfolding pad
  proof_m2 group a_pub m1 session_key = z.digest (pad group a_pub ++ m1 ++ session_key)

  -- `with_salt_and_private`
  unfoldable pub new_server : SrpGroup → (username password salt : List ℕ) → ℕ → SrpServer
  unfolding compute_x compute_v compute_k compute_b
  new_server group username password salt b = record {
    group = group;
    username = username;
    salt = salt;
    v = compute_v group (compute_x salt username password);
    b = b;
    b_pub =
        compute_b group (compute_k group) (compute_v group (compute_x salt username password)) b;
  }

  unfoldable pub server_session_key : SrpServer → ℕ → Result CryptoError (List ℕ)
  unfolding compute_u hash_premaster
  server_session_key s a_pub = do
    let n = s.group.n
    guard (not (a_pub % n == 0)) (srp_bad_parameters "client public A is zero mod N")
    let u = compute_u s.group a_pub s.b_pub
    guard (not (u == 0)) srp_proof_mismatch
    let base = (a_pub * z.modpow s.v u n) % n
    ok (hash_premaster s.group (z.modpow base s.b n))

  unfoldable pub verify_m1_prove_m2 :
      SrpServer → ℕ → (session_key received_m1 : List ℕ) → Result CryptoError (List ℕ)
  unfolding proof_m1 proof_m2
  verify_m1_prove_m2 s a_pub session_key received_m1 = do
    guard (bytes_eq (proof_m1 s.group s.username s.salt a_pub s.b_pub session_key) received_m1)
        srp_proof_mismatch
    ok (proof_m2 s.group a_pub received_m1 session_key)

  unfoldable pub with_private : SrpGroup → List ℕ → ℕ → Result CryptoError SrpClient
  with_private group username a = do
    let a_pub = z.modpow group.g a group.n
    guard (not (a_pub % group.n == 0)) (srp_bad_parameters "client public A is zero mod N")
    ok (record { group = group; username = username; a = a; a_pub = a_pub })

  unfoldable pub premaster : SrpClient → (salt password : List ℕ) → ℕ → Result CryptoError ℕ
  unfolding compute_k compute_x compute_u
  premaster c salt password b_pub = do
    let n = c.group.n
    guard (not (b_pub % n == 0)) (srp_bad_parameters "server public B is zero mod N")
    let x = compute_x salt c.username password
    let u = compute_u c.group c.a_pub b_pub
    guard (not (u == 0)) srp_proof_mismatch
    let kgx = (compute_k c.group * z.modpow c.group.g x n) % n
    let base = ((b_pub + n) - kgx) % n
    ok (z.modpow base (c.a + u * x) n)

  unfoldable pub client_session_key : SrpClient → ℕ → List ℕ
  unfolding hash_premaster
  client_session_key c pm = hash_premaster c.group pm

  unfoldable pub client_proof_m1 : SrpClient → List ℕ → ℕ → List ℕ → List ℕ
  unfolding proof_m1
  client_proof_m1 c salt b_pub session_key =
      proof_m1 c.group c.username salt c.a_pub b_pub session_key

  unfoldable pub verify_m2 :
      SrpClient → (m1 session_key received : List ℕ) → Result CryptoError (Unit {0})
  unfolding proof_m2
  verify_m2 c m1 session_key received =
      guard (bytes_eq (proof_m2 c.group c.a_pub m1 session_key) received) srp_proof_mismatch
