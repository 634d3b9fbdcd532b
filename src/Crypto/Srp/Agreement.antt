-- ===== src/Crypto/Srp/Agreement.antt =====
-- The client and the server of SRP derive one premaster secret.
use hap_rust.Common.{
  ℕ, zero, suc, ◌+◌, ◌-◌, ◌*◌, ◌/◌, ◌%◌, ◌^◌, ◌<◌, ◌≡◌, refl, sym, ap, ◌∙◌, arith, List, ok,
  both_steps, ok-injective, then_ok, guard, not, ◌==◌,
}
use mathlib.Core.Path.{subst}
use hap_rust.Crypto.Types.{srp_bad_parameters, srp_proof_mismatch}
use native.Mathlib.Nat.{
  pow-zero, pow-suc, mod-lt, mod-eq_of_lt, mod-eq-sub-mod, mul-add-mod_self_left, div-add-mod,
  add-mod_right, mul_comm, mul_assoc, add-mul, mul-one, mul-zero, mul-suc,
}
use native.Mathlib.Decide.{dec_lt}
use hap_rust.Crypto.PairVerify.Handshake.{bytes_eq_refl}
use hap_rust.Crypto.Srp.{
  Arithmetic, ArithmeticLaws, SrpGroup, SrpClient, compute_k, compute_x, compute_v, compute_u,
  compute_b, hash_premaster, new_server, server_session_key, with_private, premaster,
  client_session_key, proof_m1, proof_m2, verify_m1_prove_m2, client_proof_m1, verify_m2,
}

reduce_left : (a b n : ℕ) → ((a % n) * b) % n ≡ (a * b) % n
reduce_left a b n =
    sym (mul-add-mod_self_left n ((a / n) * b) ((a % n) * b))
    ∙ ap (λ x. x % n)
        (ap (λ x. x + (a % n) * b) (sym (mul_assoc n (a / n) b))
          ∙ sym (add-mul (n * (a / n)) (a % n) b)
          ∙ ap (λ x. x * b) (div-add-mod a n))

reduce_right : (a b n : ℕ) → (a * (b % n)) % n ≡ (a * b) % n
reduce_right a b n =
    ap (λ x. x % n) (mul_comm a (b % n)) ∙ reduce_left b a n ∙ ap (λ x. x % n) (mul_comm b a)

reduce_pow : (a e n : ℕ) → (a % n) ^ e % n ≡ a ^ e % n
reduce_pow a zero n = ap (λ x. x % n) (pow-zero (a % n) ∙ sym (pow-zero a))
reduce_pow a (suc e) n =
    ap (λ x. x % n) (pow-suc (a % n) e)
    ∙ reduce_right ((a % n) ^ e) a n
    ∙ sym (reduce_left ((a % n) ^ e) a n)
    ∙ ap (λ x. (x * a) % n) (reduce_pow a e n)
    ∙ reduce_left (a ^ e) a n
    ∙ ap (λ x. x % n) (sym (pow-suc a e))

pow_sum : (g m k : ℕ) → g ^ (m + k) ≡ g ^ m * g ^ k
pow_sum g m zero =
    ap (λ x. g ^ x) (omega arith) ∙ sym (ap (λ x. g ^ m * x) (pow-zero g) ∙ mul-one (g ^ m))
pow_sum g m (suc k) =
    ap (λ x. g ^ x) (omega arith)
    ∙ pow-suc g (m + k)
    ∙ ap (λ x. x * g) (pow_sum g m k)
    ∙ mul_assoc (g ^ m) (g ^ k) g
    ∙ ap (λ x. g ^ m * x) (sym (pow-suc g k))

pow_pow : (g m k : ℕ) → (g ^ m) ^ k ≡ g ^ (m * k)
pow_pow g m zero = pow-zero (g ^ m) ∙ sym (ap (λ x. g ^ x) (mul-zero m) ∙ pow-zero g)
pow_pow g m (suc k) =
    pow-suc (g ^ m) k
    ∙ ap (λ x. x * g ^ m) (pow_pow g m k)
    ∙ sym (pow_sum g (m * k) m)
    ∙ ap (λ x. g ^ x) (sym (mul-suc m k))

-- The exponents of the two sides are one.
exponents : (g a b u x : ℕ) → (g ^ b) ^ (a + u * x) ≡ (g ^ a * (g ^ x) ^ u) ^ b
exponents g a b u x =
    pow_pow g b (a + u * x)
    ∙ ap (λ t. g ^ t) (mul_comm b (a + u * x) ∙ ap (λ t. (a + t) * b) (mul_comm u x))
    ∙ sym (
        ap (λ t. t ^ b) (ap (λ t. g ^ a * t) (pow_pow g x u) ∙ sym (pow_sum g a (x * u)))
        ∙ pow_pow g (a + x * u) b)

-- The client's base is the server's power.
client_base : (m gb n : ℕ) → m < n → gb < n → (((m + gb) % n + n) - m) % n ≡ gb
client_base m gb n hm hb = elim (dec_lt (m + gb) n) [
  | yes small ↦
      ap (λ t. ((t + n) - m) % n) (mod-eq_of_lt small)
      ∙ ap (λ t. t % n) (omega arith)
      ∙ add-mod_right gb n
      ∙ mod-eq_of_lt hb
  | no large ↦
      ap (λ t. ((t + n) - m) % n) (mod-eq-sub-mod (omega arith) ∙ mod-eq_of_lt (omega arith))
      ∙ ap (λ t. t % n) (omega arith)
      ∙ mod-eq_of_lt hb
]

-- The two premaster secrets, over the numbers alone.
premasters :
    (g n a b u x m : ℕ)
    → m < n
    → (((((m + g ^ b % n) % n) + n) - m) % n) ^ (a + u * x) % n
      ≡ (((g ^ a % n) * ((g ^ x % n) ^ u % n)) % n) ^ b % n
premasters g n a b u x m h =
    ap (λ t. t ^ (a + u * x) % n) (client_base m (g ^ b % n) n h (mod-lt (g ^ b) (omega arith)))
    ∙ reduce_pow (g ^ b) (a + u * x) n
    ∙ ap (λ t. t % n) (exponents g a b u x)
    ∙ sym (
        ap (λ t. t ^ b % n)
          (reduce_left (g ^ a) ((g ^ x % n) ^ u % n) n
            ∙ ap (λ t. (g ^ a * t) % n) (reduce_pow (g ^ x) u n)
            ∙ reduce_right (g ^ a) ((g ^ x) ^ u) n)
        ∙ reduce_pow (g ^ a * (g ^ x) ^ u) b n)

module _ (z : Arithmetic) (laws : ArithmeticLaws z) where
  one_premaster :
      (g n a b u x k : ℕ)
      → 0 < n
      → z.modpow
          (((((k * z.modpow g x n) % n + z.modpow g b n) % n + n) - (k * z.modpow g x n) % n) % n)
          (a + u * x)
          n
        ≡ z.modpow ((z.modpow g a n * z.modpow (z.modpow g x n) u n) % n) b n
  one_premaster g n a b u x k h =
      let m = (k * z.modpow g x n) % n in
      let lem = laws.modpow_lem in
      lem ((((m + z.modpow g b n) % n + n) - m) % n) (a + u * x) n
      ∙ ap (λ t. ((((m + t) % n + n) - m) % n) ^ (a + u * x) % n) (lem g b n)
      ∙ premasters g n a b u x m (mod-lt (k * z.modpow g x n) h)
      ∙ sym (
          lem ((z.modpow g a n * z.modpow (z.modpow g x n) u n) % n) b n
          ∙ ap (λ t. ((t * z.modpow (z.modpow g x n) u n) % n) ^ b % n) (lem g a n)
          ∙ ap (λ t. (((g ^ a % n) * t) % n) ^ b % n)
              (lem (z.modpow g x n) u n ∙ ap (λ t. t ^ u % n) (lem g x n)))

  abbrev client_of : SrpGroup → List ℕ → ℕ → SrpClient
  client_of group username a = record {
    group = group;
    username = username;
    a = a;
    a_pub = z.modpow group.g a group.n;
  }

  with_private_ok :
      (group : SrpGroup) (username : List ℕ) (a : ℕ) (c : SrpClient)
      → with_private z group username a ≡ ok c
      → (guard
            (not (z.modpow group.g a group.n % group.n == 0))
            (srp_bad_parameters "client public A is zero mod N")
          ≡ ok tt)
        × (client_of group username a ≡ c)
  unfolding with_private
  with_private_ok group username a c e =
      let (_, checked, made) =
        both_steps _ (guard (not (z.modpow group.g a group.n % group.n == 0)) _) e in
      (checked, ok-injective _ _ made)

  session_keys_of :
      (group : SrpGroup) (username password salt : List ℕ) (a b pm : ℕ)
      → 0 < group.n
      → guard
          (not (z.modpow group.g a group.n % group.n == 0))
          (srp_bad_parameters "client public A is zero mod N")
        ≡ ok tt
      → premaster z
          (client_of group username a)
          salt
          password
          (new_server z group username password salt b).b_pub
        ≡ ok pm
      → server_session_key z
          (new_server z group username password salt b)
          (z.modpow group.g a group.n)
        ≡ ok (client_session_key z (client_of group username a) pm)
  unfolding premaster new_server compute_v compute_b server_session_key client_session_key
  session_keys_of group username password salt a b pm h checked e =
      let n = group.n in
      let x = compute_x z salt username password in
      let b_pub = (new_server z group username password salt b).b_pub in
      let u = compute_u z group (z.modpow group.g a n) b_pub in
      let (_, _, e1) = both_steps _ (guard (not (b_pub % n == 0)) _) e in
      let (_, nonzero, e2) = both_steps _ (guard (not (u == 0)) srp_proof_mismatch) e1 in
      then_ok _ checked (
        then_ok _ nonzero (
          ap (λ t. ok (hash_premaster z group t))
            (sym (one_premaster group.g n a b u x (compute_k z group) h) ∙ ok-injective _ _ e2)))

  -- Where the client derives a premaster secret from the server's public number, the server derives
  -- the same session key from the client's: for every group, password, salt and private numbers.
  pub server_session_key_agrees :
      (group : SrpGroup) (username password salt : List ℕ) (a b pm : ℕ) (c : SrpClient)
      → 0 < group.n
      → with_private z group username a ≡ ok c
      → premaster z c salt password (new_server z group username password salt b).b_pub ≡ ok pm
      → server_session_key z (new_server z group username password salt b) c.a_pub
        ≡ ok (client_session_key z c pm)
  server_session_key_agrees group username password salt a b pm c h made e =
      let (checked, same) = with_private_ok group username a c made in
      subst
        (λ t.
          server_session_key z (new_server z group username password salt b) t.a_pub
          ≡ ok (client_session_key z t pm))
        same
        (session_keys_of group username password salt a b pm h checked (
          subst
            (λ t.
              premaster z t salt password (new_server z group username password salt b).b_pub
              ≡ ok pm)
            (sym same) e))

  -- Over one session key, the server accepts the proof that the client makes, and the client
  -- accepts the proof with which the server answers.
  pub proofs_accepted :
      (group : SrpGroup) (username password salt key : List ℕ) (a b : ℕ) (c : SrpClient)
      → with_private z group username a ≡ ok c
      → (m2 : List ℕ) × (verify_m1_prove_m2 z
            (new_server z group username password salt b)
            c.a_pub
            key
            (client_proof_m1 z c salt (new_server z group username password salt b).b_pub key)
          ≡ ok m2)
        × (verify_m2 z c
              (client_proof_m1 z c salt (new_server z group username password salt b).b_pub key)
              key
              m2
            ≡ ok tt)
  unfolding verify_m1_prove_m2 client_proof_m1 verify_m2 new_server
  proofs_accepted group username password salt key a b c made =
      let (_, same) = with_private_ok group username a c made in
      let server = new_server z group username password salt b in
      let m1 = proof_m1 z group username salt (z.modpow group.g a group.n) server.b_pub key in
      let m2 = proof_m2 z group (z.modpow group.g a group.n) m1 key in
      subst
        (λ t.
          (m : List ℕ) × (verify_m1_prove_m2 z server t.a_pub key
              (client_proof_m1 z t salt server.b_pub key)
            ≡ ok m)
          × (verify_m2 z t (client_proof_m1 z t salt server.b_pub key) key m ≡ ok tt))
        same
        (
          m2,
          then_ok _ (ap (λ t. guard t srp_proof_mismatch) (bytes_eq_refl m1)) refl,
          ap (λ t. guard t srp_proof_mismatch) (bytes_eq_refl m2),
        )
