-- ===== src/Common/Chunks.antt =====
-- The standard library's `slice.chunks(n)`: pieces of `n` elements, the last one perhaps shorter.
use Prim.Native.Nat.{ℕ, zero, suc, ◌≤◌, ◌<◌}
use mathlib.Core.Path.{◌≡◌, refl, ap, ◌∙◌}
use mathlib.Core.List.{List, [], ◌∷◌, ◌++◌}
use native.Mathlib.Omega.{arith}
use hap_rust.Common.Lists.{length, take, drop, All, take-append-drop, length-take, length-drop}

module _ {ℓ} {A : Type ℓ} where
  abbrev pub concat : List (List A) → List A
  concat [] = []
  concat (x ∷ xs) = x ++ concat xs

  chunks_fuel : ℕ → ℕ → List A → List (List A)
  chunks_fuel zero n xs = []
  chunks_fuel (suc fuel) n [] = []
  chunks_fuel (suc fuel) n (x ∷ xs) = take n (x ∷ xs) ∷ chunks_fuel fuel n (drop n (x ∷ xs))

  -- Each piece takes one element at least, so `length xs` rounds are enough.
  unfoldable pub chunks : ℕ → List A → List (List A)
  unfolding chunks_fuel
  chunks n xs = chunks_fuel (length xs) n xs

  chunks_fuel-eq :
      (f g n : ℕ) (xs : List A)
      → 0 < n
      → length xs ≤ f
      → length xs ≤ g
      → chunks_fuel f n xs ≡ chunks_fuel g n xs
  unfolding chunks_fuel
  chunks_fuel-eq zero zero n [] h p q = refl
  chunks_fuel-eq zero (suc g) n [] h p q = refl
  chunks_fuel-eq (suc f) zero n [] h p q = refl
  chunks_fuel-eq (suc f) (suc g) n [] h p q = refl
  chunks_fuel-eq zero g n (x ∷ xs) h p q = absurd (omega arith)
  chunks_fuel-eq (suc f) zero n (x ∷ xs) h p q = absurd (omega arith)
  chunks_fuel-eq (suc f) (suc g) n (x ∷ xs) h p q =
      ap (λ t. take n (x ∷ xs) ∷ t)
        (chunks_fuel-eq f g n (drop n (x ∷ xs)) h (omega (arith, length-drop n (x ∷ xs)))
          (omega (arith, length-drop n (x ∷ xs))))

  pub chunks-nil : (n : ℕ) → chunks n [] ≡ []
  unfolding chunks
  chunks-nil n = refl

  pub chunks-cons :
      (n : ℕ) (x : A) (xs : List A)
      → 0 < n
      → chunks n (x ∷ xs) ≡ take n (x ∷ xs) ∷ chunks n (drop n (x ∷ xs))
  unfolding chunks
  chunks-cons n x xs h =
      ap (λ t. take n (x ∷ xs) ∷ t)
        (chunks_fuel-eq (length xs) (length (drop n (x ∷ xs))) n (drop n (x ∷ xs)) h
          (omega (arith, length-drop n (x ∷ xs))) (omega arith))

  chunks_fuel_flat :
      (f n : ℕ) (xs : List A) → 0 < n → length xs ≤ f → concat (chunks_fuel f n xs) ≡ xs
  unfolding chunks_fuel
  chunks_fuel_flat zero n [] h p = refl
  chunks_fuel_flat zero n (x ∷ xs) h p = absurd (omega arith)
  chunks_fuel_flat (suc f) n [] h p = refl
  chunks_fuel_flat (suc f) n (x ∷ xs) h p =
      ap (λ t. take n (x ∷ xs) ++ t)
        (chunks_fuel_flat f n (drop n (x ∷ xs)) h (omega (arith, length-drop n (x ∷ xs))))
      ∙ take-append-drop n (x ∷ xs)

  -- The pieces in order are the slice.
  pub concat-chunks : (n : ℕ) (xs : List A) → 0 < n → concat (chunks n xs) ≡ xs
  unfolding chunks
  concat-chunks n xs h = chunks_fuel_flat (length xs) n xs h (omega arith)

  chunks_fuel_short : (f n : ℕ) (xs : List A) → All (λ c. length c ≤ n) (chunks_fuel f n xs)
  unfolding chunks_fuel
  chunks_fuel_short zero n xs = tt
  chunks_fuel_short (suc f) n [] = tt
  chunks_fuel_short (suc f) n (x ∷ xs) =
      (omega (arith, length-take n (x ∷ xs)), chunks_fuel_short f n (drop n (x ∷ xs)))

  pub chunks_short : (n : ℕ) (xs : List A) → All (λ c. length c ≤ n) (chunks n xs)
  unfolding chunks
  chunks_short n xs = chunks_fuel_short (length xs) n xs
