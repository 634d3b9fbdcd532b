-- ===== src/Crypto/PairSetup/Driven.antt =====
-- Pair Setup clients as any sequence of calls leaves them, and how they finish.
use hap_rust.Common.{
  ℕ, ◌≡◌, ◌≢◌, refl, sym, ap, ◌⊎◌, inl, inr, List, [], ◌∷◌, Result, ok, err, stuck, both_steps,
  ok-injective,
}
use mathlib.Core.Path.{subst}
use hap_rust.Tlv8.Map.{Tlv8Map}
use hap_rust.Crypto.Types.{CryptoError}
use hap_rust.Crypto.Primitives.{Primitives, ControllerKeypair}
use hap_rust.Crypto.Srp.{Arithmetic, SrpClient, with_private}
use hap_rust.Crypto.Srp.Group.{hap_group}
use hap_rust.Crypto.PairVerify.Types.{AccessoryPairing}
use hap_rust.Crypto.PairSetup.Types.{
  pair_setup_username, state_m6, PairSetupStep, done, State, initial, awaiting_m2, awaiting_m4,
  awaiting_m6, finished, PairSetupClient,
}
use hap_rust.Crypto.PairSetup.{
  normalize_setup_code, expect_state, new_with_private, start, answer_m2, after_m2, handle_m2,
  answer_m4, after_m4, handle_m4, answer_m6, after_m6, handle_m6, dispatch, accept, after_accept,
  handle,
}
use hap_rust.Crypto.PairSetup.Safety.{
  IsSigned, IsSound, IsBacked, moved, after_accept-IsSound, answer_m6-IsSigned,
}

module _ (p : Primitives) (z : Arithmetic) where
  -- The message is one of those received.
  abbrev pub Received : List (List ℕ) → Tlv8Map → Type 0
  Received [] m = ⊥
  Received (response ∷ responses) m = (accept p z response ≡ ok m) ⊎ Received responses m

  -- A client as any sequence of `start` and `handle` calls leaves it, with the responses that it was given,
  -- the newest first.
  pub data Driven (c0 : PairSetupClient) : List (List ℕ) → PairSetupClient → Type 0 where
    created : Driven c0 [] c0
    started :
        {rs : List (List ℕ)} {c : PairSetupClient} → Driven c0 rs c → Driven c0 rs (start p z c).1
    handled :
        {rs : List (List ℕ)} {c : PairSetupClient}
        → Driven c0 rs c
        → (response : List ℕ) → Driven c0 (response ∷ rs) (handle p z c response).1

  Driven-IsSound :
      {password : List ℕ} {srp : SrpClient} {c0 : PairSetupClient} (Got : Tlv8Map → Type 0)
      {rs : List (List ℕ)} {c : PairSetupClient}
      → Driven c0 rs c
      → ((m : Tlv8Map) → Received rs m → Got m)
      → IsSound p z password srp Got c0
      → IsSound p z password srp Got c
  unfolding start handle
  Driven-IsSound Got created all i = i
  Driven-IsSound {password} {srp} Got (started {c} d) all i =
      moved p z password srp Got c awaiting_m2 (Driven-IsSound Got d all i) tt
  Driven-IsSound {password} {srp} Got (handled {c} d response) all i =
      after_accept-IsSound p z password srp Got c (accept p z response)
        (Driven-IsSound Got d (λ m r. all m (inr r)) i) (λ m e. all m (inl e))

  after_m2-ne-done :
      (c c' : PairSetupClient) (pairing : AccessoryPairing)
      (r : Result CryptoError (List ℕ × List ℕ × List ℕ))
      → after_m2 p z c r ≢ (ok (done pairing), c')
  unfolding after_m2
  after_m2-ne-done c c' pairing (ok (k, m1, m3)) e = cc
  after_m2-ne-done c c' pairing (err x) e = cc
  after_m2-ne-done c c' pairing stuck e = cc

  after_m4-ne-done :
      (c c' : PairSetupClient) (k : List ℕ) (pairing : AccessoryPairing)
      (r : Result CryptoError (List ℕ))
      → after_m4 p z c k r ≢ (ok (done pairing), c')
  unfolding after_m4
  after_m4-ne-done c c' k pairing (ok m5) e = cc
  after_m4-ne-done c c' k pairing (err x) e = cc
  after_m4-ne-done c c' k pairing stuck e = cc

  after_m6_done :
      (c c' : PairSetupClient) (pairing : AccessoryPairing) (r : Result CryptoError (Unit {0}))
      (step : Result CryptoError PairSetupStep)
      → after_m6 p z c r step ≡ (ok (done pairing), c')
      → (step ≡ ok (done pairing)) × (c'.state ≡ finished)
  unfolding after_m6
  after_m6_done c c' pairing (ok tt) step e = (ap (λ x. x.0) e, sym (ap (λ x. x.1.state) e))
  after_m6_done c c' pairing (err x) step e = cc
  after_m6_done c c' pairing stuck step e = cc

  module _ (password : List ℕ) (srp : SrpClient) (Got : Tlv8Map → Type 0) where
    finishes :
        (s : State) (c c' : PairSetupClient) (m : Tlv8Map) (pairing : AccessoryPairing)
        → IsBacked p z password srp Got s
        → dispatch p z s c m ≡ (ok (done pairing), c')
        → IsSigned p z password srp Got pairing × (c'.state ≡ finished)
    unfolding dispatch handle_m2 handle_m4 handle_m6
    finishes initial c c' m pairing b e = cc
    finishes finished c c' m pairing b e = cc
    finishes awaiting_m2 c c' m pairing b e =
        absurd (after_m2-ne-done c c' pairing (answer_m2 p z c m) e)
    finishes (awaiting_m4 k m1) c c' m pairing b e =
        absurd (after_m4-ne-done c c' k pairing (answer_m4 p z c k m1 m) e)
    finishes (awaiting_m6 k) c c' m pairing b e =
        let (answered, at) =
          after_m6_done c c' pairing (expect_state m state_m6) (answer_m6 p z k m) e in
        (answer_m6-IsSigned p z password srp Got k m pairing b answered, at)

    accepted_finishes :
        (c c' : PairSetupClient) (r : Result CryptoError Tlv8Map) (pairing : AccessoryPairing)
        → IsSound p z password srp Got c
        → after_accept p z c r ≡ (ok (done pairing), c')
        → IsSigned p z password srp Got pairing × (c'.state ≡ finished)
    unfolding after_accept
    accepted_finishes c c' (ok m) pairing i e = finishes c.state c c' m pairing i.backed e
    accepted_finishes c c' (err x) pairing i e = cc
    accepted_finishes c c' stuck pairing i e = cc

  created_IsSound :
      (Got : Tlv8Map → Type 0) (code a : List ℕ) (controller : ControllerKeypair)
      (c0 : PairSetupClient)
      → new_with_private p z code controller a ≡ ok c0
      → IsSound p z (normalize_setup_code code) c0.srp Got c0
  unfolding new_with_private
  created_IsSound Got code a controller c0 e =
      let (group, _, e1) = both_steps _ (hap_group z) e in
      let (srp, _, e2) =
        both_steps _ (with_private z group pair_setup_username (z.from_bytes_be a)) e1 in
      let made = ok-injective _ _ e2 in
      record {
        same_password = sym (ap (λ c. c.password) made);
        same_srp = refl;
        backed = subst (λ c. IsBacked p z (normalize_setup_code code) c0.srp Got c.state) made tt;
      }

  -- However a new client is driven, a pairing that `handle` returns is signed under the key that it
  -- brings, over its identifier and a secret from the SRP session key. That key comes from the setup
  -- code, and one of the responses received before carries an SRP proof that was checked against it.
  -- The identifier is a string, the key has 32 bytes, and the client is finished.
  pub handle-IsSigned :
      (code a : List ℕ) (controller : ControllerKeypair) (c0 c c' : PairSetupClient)
      (responses : List (List ℕ)) (response : List ℕ) (pairing : AccessoryPairing)
      → new_with_private p z code controller a ≡ ok c0
      → Driven c0 responses c
      → handle p z c response ≡ (ok (done pairing), c')
      → IsSigned p z (normalize_setup_code code) c0.srp (Received responses) pairing
        × (c'.state ≡ finished)
  unfolding handle
  handle-IsSigned code a controller c0 c c' responses response pairing made d e =
      accepted_finishes (normalize_setup_code code) c0.srp (Received responses) c c'
        (accept p z response) pairing
        (Driven-IsSound (Received responses) d (λ m r. r)
          (created_IsSound (Received responses) code a controller c0 made))
        e
