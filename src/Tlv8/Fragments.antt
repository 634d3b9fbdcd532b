-- ===== src/Tlv8/Fragments.antt =====
-- The fragments that `push` writes for a value, as a description that owes nothing to the code.
use hap_rust.Common.{
  ℕ, zero, suc, ◌≤◌, ◌<◌, ◌≡◌, ◌≢◌, refl, ◌∙◌, ◌⊎◌, inl, inr, List, [], ◌∷◌, ◌++◌, append-nil,
  append_assoc, length, take, drop, length-take, length-drop, take_all, drop_all, chunks,
  chunks-nil, chunks-cons, ltb, ltb→lt, ltb→le, Bool-cases, ◌==◌, if◌then◌else◌, arith,
}
use hap_rust.Tlv8.Writer.{push_chunks, push}

-- Full fragments of 255 bytes while the rest has 255 or more, then what is left, perhaps nothing.
unfoldable pub pieces_fuel : ℕ → List ℕ → List (List ℕ)
pieces_fuel zero v = v ∷ []
pieces_fuel (suc fuel) v =
    let more = take 255 v ∷ pieces_fuel fuel (drop 255 v) in
    if ltb (length v) 255 then v ∷ [] else more

abbrev pub pieces : List ℕ → List (List ℕ)
pieces v = pieces_fuel (length v) v

abbrev pub encode : ℕ → List (List ℕ) → List ℕ
encode ty [] = []
encode ty (c ∷ cs) = ty ∷ length c ∷ (c ++ encode ty cs)

-- The terminator that `push` adds behind a full last chunk.
finish : ℕ → List ℕ × ℕ → List ℕ
finish ty (out, last) = if last == 255 then out ++ ty ∷ 0 ∷ [] else out

cut_last : (v : List ℕ) (n : ℕ) → length v ≤ n → 0 < n → v ≢ [] → chunks n v ≡ v ∷ []
cut_last [] n h p ne = absurd (ne refl)
cut_last (x ∷ xs) n h p ne =
    chunks-cons n x xs p ∙ rw (take_all n (x ∷ xs) h, drop_all n (x ∷ xs) h, chunks-nil) refl

cut_more : (v : List ℕ) → 255 ≤ length v → chunks 255 v ≡ take 255 v ∷ chunks 255 (drop 255 v)
cut_more [] h = absurd (omega arith)
cut_more (x ∷ xs) h = chunks-cons 255 x xs (omega arith)

push_short :
    (v : List ℕ) (ty : ℕ) (out : List ℕ) (k : ℕ)
    → length v < 255
    → (k ≡ 255) ⊎ (v ≢ [])
    → finish ty (push_chunks ty (chunks 255 v) (out, k)) ≡ out ++ encode ty (v ∷ [])
unfolding finish push_chunks
push_short [] ty out k h (inl e) = rw (chunks-nil, e) refl
push_short [] ty out k h (inr ne) = absurd (ne refl)
push_short (x ∷ xs) ty out k h _ =
    rw (cut_last (x ∷ xs) 255 (omega arith) (omega arith) (λ e. cc), append-nil) (ground arith)

push_chunks-cons :
    (ty : ℕ) (c : List ℕ) (cs : List (List ℕ)) (out : List ℕ) (k : ℕ)
    → push_chunks ty (c ∷ cs) (out, k) ≡ push_chunks ty cs (out ++ ty ∷ length c ∷ c, length c)
unfolding push_chunks
push_chunks-cons ty c cs out k = refl

push_chunks-pieces :
    (fuel : ℕ) (v : List ℕ) (ty : ℕ) (out : List ℕ) (k : ℕ)
    → length v ≤ fuel
    → (k ≡ 255) ⊎ (v ≢ [])
    → finish ty (push_chunks ty (chunks 255 v) (out, k)) ≡ out ++ encode ty (pieces_fuel fuel v)
unfolding pieces_fuel
push_chunks-pieces zero v ty out k h s = push_short v ty out k (omega arith) s
push_chunks-pieces (suc fuel) v ty out k h s = elim (Bool-cases (ltb (length v) 255)) [
  | inl short ↦ rw short (push_short v ty out k (ltb→lt _ _ short) s)
  | inr long ↦
      let full : 255 ≤ length v = ltb→le _ _ long in
      rw (long, cut_more v full, push_chunks-cons)
        (push_chunks-pieces fuel (drop 255 v) ty (out ++ ty ∷ length (take 255 v) ∷ take 255 v)
            (length (take 255 v)) (omega (arith, length-drop 255 v))
            (inl (omega (arith, length-take 255 v)))
          ∙ append_assoc out (ty ∷ length (take 255 v) ∷ take 255 v) _)
]

-- `push` keeps the buffer and appends the fragments of the value.
pub push-pieces : (out : List ℕ) (ty : ℕ) (v : List ℕ) → push out ty v ≡ out ++ encode ty (pieces v)
unfolding push finish
push-pieces out ty [] = unfold pieces_fuel in refl
push-pieces out ty (b ∷ bs) =
    push_chunks-pieces (length (b ∷ bs)) (b ∷ bs) ty out 0 (omega arith) (inr (λ e. cc))
