-- ===== src/Controller/Supervisor/Healing.antt =====
-- How the supervisor comes through an outage.
use native.Mathlib.Nat.{pow-suc}
use mathlib.Core.Path.{subst}
use hap_rust.Common.{
  ℕ, zero, suc, ◌+◌, ◌-◌, ◌%◌, ◌^◌, ◌≤◌, ◌<◌, min, ltb, ◌≡◌, refl, sym, ap, ◌∙◌, List, [], ◌∷◌,
  ◌++◌, Option, none, some, map, append-nil, append_assoc, arith, Bool-cases, inl, inr, ltb→le,
}
use hap_rust.Controller.Reconnect.{backoff}
use hap_rust.Controller.Supervisor.{
  Pump, on_closed, on_failed, on_reconnected, note_config, reconnect_loop, ConnectionState,
  connected, disconnected, reconnecting,
}

-- The waits from the given attempt on: they double from 1 and end at 30 seconds.
abbrev pub waits : (attempt failures : ℕ) → List ℕ
waits n zero = []
waits n (suc k) = min (2 ^ (n - 1)) 30 ∷ waits (suc n) k

pow_pos : (m : ℕ) → 1 ≤ 2 ^ m
pow_pos zero = omega arith
pow_pos (suc m) = omega (arith, pow-suc 2 m, pow_pos m)

pow_ge : (m k : ℕ) → m ≡ k + 5 → 30 ≤ 2 ^ m
pow_ge zero k e = omega arith
pow_ge (suc m) zero e = rw e (omega arith)
pow_ge (suc m) (suc k) e = omega (arith, pow-suc 2 m, pow_ge m k (omega arith))

backoff_lem : (n : ℕ) → backoff n ≡ min (2 ^ (n - 1)) 30
unfolding backoff
backoff_lem n =
    let positive = pow_pos (n - 1) in
    elim (Bool-cases (ltb (n - 1) 64)) [
      | inl h ↦ rw (h, backoff) (omega (arith, positive))
      | inr h ↦
          let far = ltb→le 64 (n - 1) h in
          rw (h, backoff) (omega (arith, pow_ge (n - 1) (n - 1 - 5) (omega arith)))
    ]

-- The states that the attempts from the given one on pass through.
abbrev pub progress : (attempt failures : ℕ) → List ConnectionState
progress n zero = connected ∷ []
progress n (suc k) = reconnecting (suc n) ∷ progress (suc n) k

module _ {F : Type 0} where
  abbrev failed_once : (attempt : ℕ) → Pump F → Pump F
  failed_once n p = record p {
    attempt = some (suc n);
    slept = p.slept ++ min (2 ^ (n - 1)) 30 ∷ [];
    states = p.states ++ reconnecting (suc n) ∷ [];
  }

  on_failed_lem : (n : ℕ) (p : Pump F) → (n + 1) % 2 ^ 32 ≡ suc n → on_failed n p ≡ failed_once n p
  unfolding on_failed
  on_failed_lem n p e = rw (on_failed, e, backoff_lem n) refl

module _ {F : Type 0} (session : ℕ) where
  -- The task is well again after so many failures of the attempts from the given one on.
  abbrev pub Healed : (attempt failures : ℕ) → (before after : Pump F) → Type 0
  Healed n k p q =
      (q.current ≡ session)
      × (q.attempt ≡ none)
      × (q.slept ≡ p.slept ++ waits n k)
      × (q.states ≡ p.states ++ progress n k)
      × (q.asked ≡ p.asked ++ map (λ id. (session, id)) p.subscribed)

  abbrev loops : Option ℕ → (attempt failures : ℕ) → Pump F → Pump F
  loops cn n k p = reconnect_loop n k (record { session = session; config_number = cn }) p

  loops_once_more :
      (cn : Option ℕ) (n k : ℕ) (p : Pump F)
      → n + suc k < 2 ^ 32
      → loops cn n (suc k) p ≡ loops cn (suc n) k (failed_once n p)
  unfolding reconnect_loop
  loops_once_more cn n k p h =
      let e : (n + 1) % 2 ^ 32 ≡ suc n = omega arith in
      ap (λ m. loops cn m k (on_failed n p)) e ∙ ap (loops cn (suc n) k) (on_failed_lem n p e)

  Healed-loops :
      (cn : Option ℕ) (n k : ℕ) (p : Pump F) → n + k < 2 ^ 32 → Healed n k p (loops cn n k p)
  unfolding reconnect_loop on_reconnected note_config
  Healed-loops none n zero p h = (refl, refl, sym (append-nil p.slept), refl, refl)
  Healed-loops (some c) n zero p h = (refl, refl, sym (append-nil p.slept), refl, refl)
  Healed-loops cn n (suc k) p h =
      let rest = Healed-loops cn (suc n) k (failed_once n p) (omega arith) in
      subst (Healed n (suc k) p) (sym (loops_once_more cn n k p h)) (
        rest.0,
        rest.1,
        rest.2 ∙ append_assoc p.slept _ _,
        rest.3 ∙ append_assoc p.states _ _,
        rest.4,
      )

  -- However many attempts fail after the loss of a session, the first that succeeds puts the task on the new
  -- session, where each subscribed id has been asked for again. The waits in between double from one second
  -- up to thirty, and the states that are reported count the attempts from 1.
  pub reconnect_loop-on_closed :
      (cn : Option ℕ) (k : ℕ) (p : Pump F)
      → k + 1 < 2 ^ 32
      → let q =
          reconnect_loop 1 k (record { session = session; config_number = cn }) (on_closed p) in
        (q.current ≡ session)
        × (q.attempt ≡ none)
        × (q.slept ≡ p.slept ++ waits 1 k)
        × (q.states ≡ p.states ++ disconnected ∷ reconnecting 1 ∷ progress 1 k)
        × (q.asked ≡ p.asked ++ map (λ id. (session, id)) p.subscribed)
  unfolding on_closed
  reconnect_loop-on_closed cn k p h =
      let r = Healed-loops cn 1 k (on_closed p) (omega arith) in
      (r.0, r.1, r.2, r.3 ∙ append_assoc p.states _ _, r.4)
