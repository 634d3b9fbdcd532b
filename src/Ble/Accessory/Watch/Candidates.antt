-- ===== src/Ble/Accessory/Watch/Candidates.antt =====
-- The loop over the candidate numbers of a notification: which of them it ends with.
use hap_rust.Common.{
  ℕ, zero, suc, ◌+◌, ◌%◌, ◌^◌, ◌≤◌, ◌<◌, ◌≡◌, refl, sym, ap, ◌∙◌, ◌⊎◌, inl, inr, List, [], ◌∷◌,
  Option, Result, ok, err, stuck, true, ltb, ◌==◌, ==_iff, ltb→le, length, map, arith, Bool-cases,
  ok-injective,
}
use mathlib.Core.Path.{subst, ap₂}
use hap_rust.Model.Format.{CharFormat}
use hap_rust.Crypto.Types.{CryptoError}
use hap_rust.Crypto.Broadcast.{StreamCrates, BroadcastKey, open_text}
use hap_rust.Ble.Values.{Floats}
use hap_rust.Ble.Accessory.{gsn_is_newer}
use hap_rust.Ble.Accessory.Watch.{Watch, count_up, candidates, own_gsn, accept, try_one, try_all}

-- A number among the candidates.
abbrev pub In : ℕ → List ℕ → Type 0
In n [] = ⊥
In n (x ∷ xs) = (x ≡ n) ⊎ In n xs

In-count_up :
    (start first n d : ℕ)
    → first ≤ d
    → d < first + n
    → In ((start + d) % 2 ^ 16) (map (λ k. (start + k) % 2 ^ 16) (count_up first n))
In-count_up start first zero d h k = absurd (omega arith)
In-count_up start first (suc n) d h k = elim (Bool-cases (first == d)) [
  | inl e ↦ inl (ap (λ t. (start + t) % 2 ^ 16) ((==_iff first d).0 e))
  | inr ne ↦ inr (In-count_up start (suc first) n d (ground (arith, ne)) (omega arith))
]

-- The window holds each of the next hundred numbers.
pub In-candidates : (start d : ℕ) → 1 ≤ d → d ≤ 100 → In ((start + d) % 2 ^ 16) (candidates start)
unfolding candidates
In-candidates start d h k = elim (Bool-cases (1 == d)) [
  | inl e ↦ inl (ap (λ t. (start + t) % 2 ^ 16) ((==_iff 1 d).0 e))
  | inr ne ↦ inr (inr (In-count_up start 2 99 d (ground (arith, ne)) (omega arith)))
]

pub gsn_is_newer_ahead :
    (start d : ℕ)
    → start < 2 ^ 16
    → 1 ≤ d
    → d ≤ 100
    → gsn_is_newer ((start + d) % 2 ^ 16) start ≡ true
unfolding gsn_is_newer
gsn_is_newer_ahead start d h j k = ground arith

-- A notification opened as such a text, which names the number.
abbrev pub Fits : Result CryptoError (List ℕ) → (gsn : ℕ) → (pt : List ℕ) → Type 0
Fits r gsn pt = (r ≡ ok pt) × (12 ≤ length pt) × (own_gsn pt ≡ gsn)

module _ (fl : Floats) (c : StreamCrates) (key : BroadcastKey) (formats : ℕ → Option CharFormat)
    (device_id : List ℕ) (start : ℕ) where
  abbrev Tried : (gsn : ℕ) → Result CryptoError (List ℕ) → (result later s : Watch fl.F) → Type 0
  Tried gsn r result later s =
      (((pt : List ℕ) → ¬ Fits r gsn pt) × (result ≡ later))
      ⊎ ((pt : List ℕ) × Fits r gsn pt
          × (result ≡ accept fl c key formats device_id start gsn pt s))

  try_one_cases :
      (gsn : ℕ) (r : Result CryptoError (List ℕ)) (later s : Watch fl.F)
      → Tried gsn r (try_one fl c key formats device_id start gsn r later s) later s
  unfolding try_one
  try_one_cases gsn (err e) later s = inl ((λ pt f. cc (f.0)), refl)
  try_one_cases gsn stuck later s = inl ((λ pt f. cc (f.0)), refl)
  try_one_cases gsn (ok pt) later s = elim (Bool-cases (ltb (length pt) 12)) [
    | inl short ↦ inl (
      (λ other f.
          let whole = subst (λ t. 12 ≤ length t) (sym (ok-injective _ _ f.0)) f.1 in ground arith),
      rw short refl,
    )
    | inr long ↦ elim (Bool-cases (own_gsn pt == gsn)) [
      | inl same ↦ inr (pt, (refl, ltb→le _ _ long, (==_iff _ _).0 same), rw (long, same) refl)
      | inr apart ↦ inl (
        (λ other f.
            let named : own_gsn pt ≡ gsn = ap own_gsn (ok-injective _ _ f.0) ∙ f.2 in ground arith),
        rw (long, apart) refl,
      )
    ]
  ]

  -- Where only one number fits, the loop ends with it.
  pub try_all_finds :
      (gsn : ℕ) (cs payload : List ℕ) {pt : List ℕ} (s : Watch fl.F)
      → In gsn cs
      → Fits (open_text c key gsn payload device_id) gsn pt
      → ((g : ℕ) (other : List ℕ) → Fits (open_text c key g payload device_id) g other → g ≡ gsn)
      → try_all fl c key formats device_id start cs payload s
        ≡ accept fl c key formats device_id start gsn pt s
  unfolding try_all
  try_all_finds gsn [] payload s here o only = absurd here
  try_all_finds gsn (x ∷ cs) payload {pt} s here o only =
      elim (try_one_cases x (open_text c key x payload device_id)
        (try_all fl c key formats device_id start cs payload s) s) [
          | inl (none_fits, e) ↦ elim here [
            | inl same ↦ absurd (
                none_fits pt
                  (subst (λ g. Fits (open_text c key g payload device_id) g pt) (sym same) o))
            | inr later ↦ e ∙ try_all_finds gsn cs payload s later o only
          ]
          | inr (other, fits, e) ↦
              let same = only x other fits in
              let opened : open_text c key gsn payload device_id ≡ ok other =
                ap (λ g. open_text c key g payload device_id) (sym same) ∙ fits.0 in
              let text : other ≡ pt = ok-injective other pt (sym opened ∙ o.0) in
              e ∙ ap₂ (λ g t. accept fl c key formats device_id start g t s) same text
        ]

  -- The loop leaves the state as it is, or ends with a number that fits and is newer.
  abbrev pub Taken : (cs payload : List ℕ) → Watch fl.F → Type 0
  Taken cs payload s =
      (gsn : ℕ) × (pt : List ℕ) × In gsn cs
      × Fits (open_text c key gsn payload device_id) gsn pt
      × (gsn_is_newer gsn start ≡ true)
      × (try_all fl c key formats device_id start cs payload s
          ≡ accept fl c key formats device_id start gsn pt s)

  pub try_all_cases :
      (cs payload : List ℕ) (s : Watch fl.F)
      → (try_all fl c key formats device_id start cs payload s ≡ s) ⊎ Taken cs payload s
  unfolding try_all accept
  try_all_cases [] payload s = inl refl
  try_all_cases (x ∷ cs) payload s =
      elim (try_one_cases x (open_text c key x payload device_id)
        (try_all fl c key formats device_id start cs payload s) s) [
          | inl (none_fits, e) ↦ elim (try_all_cases cs payload s) [
            | inl kept ↦ inl (e ∙ kept)
            | inr (gsn, pt, at, fits, newer, e') ↦ inr (gsn, pt, inr at, fits, newer, e ∙ e')
          ]
          | inr (pt, fits, e) ↦ elim (Bool-cases (gsn_is_newer x start)) [
            | inl newer ↦ inr (x, pt, inl refl, fits, newer, e)
            | inr stale ↦ inl (e ∙ rw stale refl)
          ]
        ]
