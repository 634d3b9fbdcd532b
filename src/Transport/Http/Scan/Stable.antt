-- ===== src/Transport/Http/Scan/Stable.antt =====
-- The search for a line's end finds the same place however many bytes follow.
use hap_rust.Common.{
  ℕ, suc, ◌+◌, ◌≤◌, ◌≡◌, refl, ap, List, [], ◌∷◌, ◌++◌, some, true, false, ◌&&◌, length, ◌==◌,
  arith, Bool-cases, Option-cases, ◌⊎◌, inl, inr,
}
use hap_rust.Transport.Http.Scan.{starts_with, find_subslice}

pub length-starts_with :
    (front xs : List ℕ) → starts_with front xs ≡ true → length front ≤ length xs
unfolding starts_with
length-starts_with [] xs e = omega arith
length-starts_with (p ∷ ps) [] e = cc
length-starts_with (p ∷ ps) (x ∷ xs) e = ground (arith, length-starts_with ps xs, e)

-- A front that fits is judged by the bytes that it covers.
pub starts_with-append :
    (front xs ys : List ℕ)
    → length front ≤ length xs
    → starts_with front (xs ++ ys) ≡ starts_with front xs
unfolding starts_with
starts_with-append [] xs ys h = refl
starts_with-append (p ∷ ps) [] ys h = absurd (omega arith)
starts_with-append (p ∷ ps) (x ∷ xs) ys h =
    ap (λ t. (p == x) && t) (starts_with-append ps xs ys (omega arith))

-- Where the search ends: here, or later and not here.
find_subslice-cases :
    (needle : List ℕ) (x : ℕ) (xs : List ℕ) (i : ℕ)
    → find_subslice needle (x ∷ xs) ≡ some i
    → ((starts_with needle (x ∷ xs) ≡ true) × (i ≡ 0))
      ⊎ ((starts_with needle (x ∷ xs) ≡ false)
          × (j : ℕ) × (i ≡ suc j)
          × (find_subslice needle xs ≡ some j))
unfolding find_subslice
find_subslice-cases needle x xs i e = elim (Bool-cases (starts_with needle (x ∷ xs))) [
  | inl t ↦ let e' = rw t at e in inl (t, cc)
  | inr f ↦
      let e' = rw f at e in
      elim (Option-cases (find_subslice needle xs)) [
        | inl n ↦ let e'' = rw n at e' in cc
        | inr (j, m) ↦ let e'' = rw m at e' in inr (f, j, cc, m)
      ]
]

pub length-find_subslice :
    (needle xs : List ℕ) (i : ℕ) → find_subslice needle xs ≡ some i → i + length needle ≤ length xs
unfolding find_subslice
length-find_subslice needle [] i e = cc
length-find_subslice needle (x ∷ xs) i e = elim (find_subslice-cases needle x xs i e) [
  | inl (t, z) ↦ omega (arith, z, length-starts_with needle (x ∷ xs) t)
  | inr (f, j, s, m) ↦ omega (arith, s, length-find_subslice needle xs j m)
]

pub find_subslice-append :
    (needle xs ys : List ℕ) (i : ℕ)
    → find_subslice needle xs ≡ some i
    → find_subslice needle (xs ++ ys) ≡ some i
unfolding find_subslice
find_subslice-append needle [] ys i e = cc
find_subslice-append needle (x ∷ xs) ys i e =
    let fits = length-find_subslice needle (x ∷ xs) i e in
    let same = starts_with-append needle (x ∷ xs) ys (omega arith) in
    elim (find_subslice-cases needle x xs i e) [
      | inl (t, z) ↦ rw (same, t) (cc)
      | inr (f, j, s, m) ↦ rw (same, f, find_subslice-append needle xs ys j m) (cc)
    ]
