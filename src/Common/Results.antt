-- ===== src/Common/Results.antt =====
-- `core::result::Result`, with one more case for a loop that ran out of its fuel.
use mathlib.Core.Path.{◌≡◌, refl, ap, ◌∙◌}
use mathlib.Core.Logic.{◌≢◌, ◌⊎◌, inl, inr}
use mathlib.Core.Bool.{Bool, true, false}
use hap_rust.Common.Tests.{if◌then◌else◌}
use mathlib.Core.Option.{Option, none, some}

-- `stuck` is no Rust value: a loop of the model has used up its fuel.
pub data Result {ℓ κ} (E : Type κ) (A : Type ℓ) : Type (ℓ ⊔ κ) where
  ok : A → Result E A
  err : E → Result E A
  stuck : Result E A

infixl 5 ◌>>=◌ ◌>>◌
abbrev pub ◌>>=◌ {ℓ κ μ} :
    {E : Type κ} {A : Type ℓ} {B : Type μ} → Result E A → (A → Result E B) → Result E B
ok a >>= f = f a
err e >>= f = err e
stuck >>= f = stuck

abbrev pub ◌>>◌ {ℓ κ} : {E : Type κ} {B : Type ℓ} → Result E (Unit {0}) → Result E B → Result E B
m >> k = m >>= λ _. k

-- `option.ok_or(e)`
abbrev pub ok_or {ℓ κ} : {E : Type κ} {A : Type ℓ} → Option A → E → Result E A
ok_or none e = err e
ok_or (some a) e = ok a

-- `result.map_err(f)`, and the conversion that `?` makes.
abbrev pub map_err {ℓ κ μ} :
    {E : Type κ} {F : Type μ} {A : Type ℓ} → (E → F) → Result E A → Result F A
map_err f (ok a) = ok a
map_err f (err e) = err (f e)
map_err f stuck = stuck

-- An early return of an error.
abbrev pub guard {κ} : {E : Type κ} → Bool → E → Result E (Unit {0})
guard true e = ok tt
guard false e = err e

-- A result that is no exhausted loop is a value or an error.
abbrev pub Outcome {ℓ κ} : {E : Type κ} {A : Type ℓ} → Result E A → Type (ℓ ⊔ κ)
Outcome {E} {A} r = ((a : A) × (r ≡ ok a)) ⊎ ((e : E) × (r ≡ err e))

module _ {ℓ κ} {E : Type κ} {A : Type ℓ} where
  pub outcome : (r : Result E A) → r ≢ stuck → Outcome r
  outcome stuck never = absurd (never refl)
  outcome (err e) never = inr (e, refl)
  outcome (ok a) never = inl (a, refl)

  pub ok-injective : (a b : A) → ◌≡◌ {A = Result E A} (ok a) (ok b) → a ≡ b
  ok-injective a b e = cc

-- `ok_or` gives a value exactly where there is one.
pub found : {E A : Type 0} {o : Option A} {a : A} (e : E) → o ≡ some a → ok_or o e ≡ ok a
found e h = ap (λ x. ok_or x e) h

pub present : {E A : Type 0} (e : E) (o : Option A) {a : A} → ok_or o e ≡ ok a → o ≡ some a
present e none h = cc
present e (some x) h = ap some (ok-injective _ _ h)

-- Where a sequence of two steps succeeds, the first gave a value from which the second succeeded.
module _ {ℓ κ μ} {E : Type κ} {A : Type ℓ} {B : Type μ} (second : A → Result E B) where
  pub both_steps :
      (first : Result E A) {b : B}
      → (first >>= second) ≡ ok b
      → (a : A) × (first ≡ ok a) × (second a ≡ ok b)
  both_steps stuck done = cc
  both_steps (err e) done = cc
  both_steps (ok a) done = (a, refl, done)

-- A step that succeeds gives way to the next.
pub then_ok {ℓ κ μ} :
    {E : Type κ} {A : Type ℓ} {B : Type μ} (second : A → Result E B) {first : Result E A} {a : A}
    {r : Result E B}
    → first ≡ ok a
    → second a ≡ r
    → (first >>= second) ≡ r
then_ok second e f = ap (λ x. x >>= second) e ∙ f

pub guard-eq-ok {κ} : {E : Type κ} (t : Bool) (e : E) {u : Unit {0}} → guard t e ≡ ok u → t ≡ true
guard-eq-ok true e h = refl
guard-eq-ok false e h = cc

-- What does not run out of fuel.
module _ {ℓ κ} {E : Type κ} {A : Type ℓ} where
  pub ok-ne-stuck : (a : A) → ◌≢◌ {A = Result E A} (ok a) stuck
  ok-ne-stuck a e = cc

  pub err-ne-stuck : (x : E) → ◌≢◌ {A = Result E A} (err x) stuck
  err-ne-stuck x e = cc

  pub ok_or-ne-stuck : (o : Option A) (x : E) → ok_or o x ≢ stuck
  ok_or-ne-stuck none x e = cc
  ok_or-ne-stuck (some a) x e = cc

pub guard-ne-stuck {κ} : {E : Type κ} (t : Bool) (x : E) → guard t x ≢ stuck
guard-ne-stuck true x e = cc
guard-ne-stuck false x e = cc

pub bind-ne-stuck {ℓ κ μ} :
    {E : Type κ} {A : Type ℓ} {B : Type μ} (first : Result E A) (second : A → Result E B)
    → first ≢ stuck
    → ((a : A) → second a ≢ stuck)
    → (first >>= second) ≢ stuck
bind-ne-stuck (ok a) second h k e = k a e
bind-ne-stuck (err x) second h k e = cc
bind-ne-stuck stuck second h k e = h refl

pub if-ne-stuck {ℓ κ} :
    {E : Type κ} {A : Type ℓ} (t : Bool) (x y : Result E A)
    → x ≢ stuck
    → y ≢ stuck
    → (if t then x else y) ≢ stuck
if-ne-stuck true x y h k = h
if-ne-stuck false x y h k = k

-- What a test in front of an error lets through.
module _ {ℓ κ} {E : Type κ} {A : Type ℓ} {a : A} where
  pub unless_err :
      (t : Bool) (x : E) (r : Result E A)
      → (if t then err x else r) ≡ ok a
      → (t ≡ false) × (r ≡ ok a)
  unless_err true x r h = cc
  unless_err false x r h = (refl, h)

  pub when_ok :
      (t : Bool) (x : E) (r : Result E A)
      → (if t then r else err x) ≡ ok a
      → (t ≡ true) × (r ≡ ok a)
  when_ok true x r h = (refl, h)
  when_ok false x r h = cc
