-- ===== src/Ble/Pdu/Fragments.antt =====
-- Fragments of a PDU: their sizes, and how they join again.
use hap_rust.Common.{
  ℕ, ◌-◌, ◌≤◌, ◌≡◌, refl, ap, ◌∙◌, List, [], ◌∷◌, ◌++◌, append-nil, append_assoc, ok, length,
  length-take, take, drop, take-append-drop, get_or, map, All, concat, chunks, concat-chunks,
  chunks_short, max, leb, arith, inl, inr, Bool-cases,
}
use hap_rust.Ble.Pdu.{fragment, continuations, join, reassemble}

-- A continuation fragment with the control byte `control`.
abbrev pub continuation : (control tid : ℕ) → List ℕ → List ℕ
continuation control tid chunk = control ∷ tid ∷ chunk

pub join-continuation :
    (control tid : ℕ) (out : List ℕ) (cs : List (List ℕ))
    → join out (map (continuation control tid) cs) ≡ ok (out ++ concat cs)
unfolding join
join-continuation control tid out [] = ap ok (rw (append-nil out) refl)
join-continuation control tid out (c ∷ cs) =
    join-continuation control tid (out ++ c) cs ∙ ap ok (append_assoc out c (concat cs))

-- The fragments of a PDU join to the PDU, whatever the fragment size.
pub reassemble-fragment : (pdu : List ℕ) (n : ℕ) → reassemble (fragment pdu n) ≡ ok pdu
unfolding fragment continuations reassemble join
reassemble-fragment pdu n = elim (Bool-cases (leb (length pdu) (max n 3))) [
  | inl e ↦ rw e refl
  | inr e ↦ rw e (
      join-continuation 0x80 (get_or pdu 2 0) (take (max n 3) pdu)
        (chunks (max (max n 3 - 2) 1) (drop (max n 3) pdu))
      ∙ ap ok (
          ap (λ t. take (max n 3) pdu ++ t)
            (concat-chunks (max (max n 3 - 2) 1) (drop (max n 3) pdu) (ground arith))
          ∙ take-append-drop (max n 3) pdu))
]

continuations_short :
    (n tid : ℕ) (cs : List (List ℕ))
    → 3 ≤ n
    → All (λ c. length c ≤ max (n - 2) 1) cs
    → All (λ f. length f ≤ n) (map (continuation 0x80 tid) cs)
continuations_short n tid [] h k = tt
continuations_short n tid (c ∷ cs) h k = (ground (arith, k.0), continuations_short n tid cs h k.1)

-- No fragment is longer than the fragment size, or than 3 where that is less.
pub fragment_short : (pdu : List ℕ) (n : ℕ) → All (λ f. length f ≤ max n 3) (fragment pdu n)
unfolding fragment continuations
fragment_short pdu n = elim (Bool-cases (leb (length pdu) (max n 3))) [
  | inl e ↦ rw e (ground (arith, e), tt)
  | inr e ↦ rw e (
    ground (arith, length-take (max n 3) pdu),
    continuations_short (max n 3) (get_or pdu 2 0)
        (chunks (max (max n 3 - 2) 1) (drop (max n 3) pdu)) (ground arith)
        (chunks_short (max (max n 3 - 2) 1) (drop (max n 3) pdu)),
  )
]
