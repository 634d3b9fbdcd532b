-- ===== src/Controller/Supervisor/Refresh.antt =====
-- When the supervisor asks for a fresh attribute database.
use hap_rust.Common.{
  ℕ, ◌≡◌, refl, ◌↔◌, List, [], ◌∷◌, ◌++◌, Option, none, some, ok, err, stuck, Bool, true, false,
  ◌==◌, not, All, ℤ, if◌then◌else◌, arith, ==_refl, ◌∙◌, sym,
}
use hap_rust.Controller.Supervisor.{
  Pump, Run, begin, body, closed, failed, returned, numbered, subscribe, unsubscribe, on_body,
  on_closed, on_failed, on_reconnected, note_config, differs, on_subscribed, on_unsubscribed,
}

abbrev known : Option ℕ → List ℕ
known none = []
known (some n) = n ∷ []

abbrev newest : List ℕ → Option ℕ
newest [] = none
newest (n ∷ ns) = some n

-- Every number is the newest one.
abbrev pub Steady : List ℕ → Type 0
Steady [] = Unit {0}
Steady (n ∷ ns) = All (λ m. m ≡ n) ns

newest-known : (o : Option ℕ) → newest (known o) ≡ o
newest-known none = refl
newest-known (some n) = refl

Steady-known : (o : Option ℕ) → Steady (known o)
Steady-known none = tt
Steady-known (some n) = tt

-- The known number is the newest, and the flag is down exactly while the numbers are steady.
record Agrees {F : Type 0} (ns : List ℕ) (p : Pump F) : Type 0 where
  last : p.last_cn ≡ newest ns
  flag : (p.needs_refresh ≡ false) ↔ Steady ns

abbrev raised : Option ℕ → ℕ → Bool → Bool
raised o n b = if differs o n then true else b

same_number : (m n : ℕ) → not (m == n) ≡ false → m ≡ n
same_number m n h = ground (arith, h)

unraised : (t b : Bool) → (if t then true else b) ≡ false → (t ≡ false) × (b ≡ false)
unraised true b h = cc
unraised false b h = (refl, h)

All-moved : {a b : ℕ} (ns : List ℕ) → a ≡ b → All (λ m. m ≡ a) ns → All (λ m. m ≡ b) ns
All-moved [] e h = tt
All-moved (n ∷ ns) e h = (h.0 ∙ e, All-moved ns e h.1)

-- One more number.
next_flag :
    (o : Option ℕ) (cn : ℕ) (flag : Bool) (ns : List ℕ)
    → o ≡ newest ns
    → ((flag ≡ false) ↔ Steady ns)
    → ((raised o cn flag ≡ false) ↔ Steady (cn ∷ ns))
next_flag none cn flag [] h k = ((λ x. tt), λ u. k.1 tt)
next_flag (some m) cn flag [] h k = cc
next_flag none cn flag (n ∷ ns) h k = cc
next_flag (some m) cn flag (n ∷ ns) h k =
    let m_is_n : m ≡ n = cc in
    (
      λ down.
          let (same, low) = unraised (not (m == cn)) flag down in
          let e : n ≡ cn = sym m_is_n ∙ same_number m cn same in (e, All-moved ns e (k.0 low)),
      λ steady. rw (m_is_n ∙ steady.0, ==_refl cn, k.1 (All-moved ns (sym steady.0) steady.1)) refl,
    )

module _ {F : Type 0} (as_f64 : ℤ → F) (p : Pump F) (low : p.needs_refresh ≡ false) where
  Agrees-Run : {ns : List ℕ} {q : Pump F} → Run as_f64 p ns q → Agrees (ns ++ known p.last_cn) q
  unfolding on_body on_closed on_failed on_reconnected note_config on_subscribed on_unsubscribed
  Agrees-Run begin = record {
    last = sym (newest-known p.last_cn);
    flag = ((λ x. Steady-known p.last_cn), λ x. low);
  }
  Agrees-Run (body (err x) e r) = Agrees-Run r
  Agrees-Run (body stuck e r) = Agrees-Run r
  Agrees-Run (body (ok x) e r) = let a = Agrees-Run r in record { last = a.last; flag = a.flag }
  Agrees-Run (closed e r) = let a = Agrees-Run r in record { last = a.last; flag = a.flag }
  Agrees-Run (failed n e r) = let a = Agrees-Run r in record { last = a.last; flag = a.flag }
  Agrees-Run (returned n s e r) = let a = Agrees-Run r in record { last = a.last; flag = a.flag }
  Agrees-Run (subscribe id r) = let a = Agrees-Run r in record { last = a.last; flag = a.flag }
  Agrees-Run (unsubscribe id r) = let a = Agrees-Run r in record { last = a.last; flag = a.flag }
  Agrees-Run (numbered {ns = ns} {q = q} n s cn e r) =
      let a = Agrees-Run r in
      record {
        last = refl;
        flag = next_flag q.last_cn cn q.needs_refresh (ns ++ known p.last_cn) a.last a.flag;
      }

  -- A refresh is asked for exactly where the config numbers that the reconnects have brought since, together
  -- with the last one known before, are not all the same.
  pub needs_refresh_iff :
      {ns : List ℕ} {q : Pump F}
      → Run as_f64 p ns q
      → (q.needs_refresh ≡ false) ↔ Steady (ns ++ known p.last_cn)
  needs_refresh_iff r = (Agrees-Run r).flag
