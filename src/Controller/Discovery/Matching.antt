-- ===== src/Controller/Discovery/Matching.antt =====
-- A scanned payload finds its accessory.
use hap_rust.Common.{
  ℕ, ◌<◌, ◌≡◌, ◌≢◌, refl, ◌⊎◌, inl, inr, List, [], ◌∷◌, ◌++◌, none, some, Bool, true, false, ◌||◌,
  All, Bool-cases, take, arith,
}
use hap_rust.Crypto.PairVerify.{bytes_eq}
use hap_rust.Crypto.PairVerify.Safety.{bytes_eq→≡}
use hap_rust.Crypto.PairVerify.Handshake.{bytes_eq_refl}
use hap_rust.Transport.Text.{ascii_lower, to_ascii_lowercase}
use hap_rust.Controller.SetupPayload.{SetupPayload}
use hap_rust.Controller.Discovery.{
  Discovered, advertised, id_of, to_ascii_uppercase, ascii_upper, exact, setup_hash, match_hash,
  match_kind,
}

-- A character that is no lower-case letter.
abbrev pub IsCanonical : ℕ → Type 0
IsCanonical c = (c < 97) ⊎ (122 < c)

upper_lower : (c : ℕ) → IsCanonical c → ascii_upper (ascii_lower c) ≡ c
upper_lower c (inl h) = ground arith
upper_lower c (inr h) = ground arith

to_ascii_uppercase-to_ascii_lowercase :
    (s : List ℕ) → All IsCanonical s → to_ascii_uppercase (to_ascii_lowercase s) ≡ s
unfolding to_ascii_lowercase
to_ascii_uppercase-to_ascii_lowercase [] h = refl
to_ascii_uppercase-to_ascii_lowercase (c ∷ s) h =
    rw (upper_lower c h.0, to_ascii_uppercase-to_ascii_lowercase s h.1) refl

or_true : (b : Bool) → (b || true) ≡ true
or_true true = refl
or_true false = refl

unequal : (xs ys : List ℕ) → xs ≢ ys → bytes_eq xs ys ≡ false
unequal xs ys h = elim (Bool-cases (bytes_eq xs ys)) [
  | inl same ↦ absurd (h (bytes_eq→≡ xs ys same))
  | inr apart ↦ apart
]

-- The setup hash as the specification gives it.
abbrev pub first_four : (sha512 : List ℕ → List ℕ) → (setup_id device_id : List ℕ) → List ℕ
first_four sha512 setup_id device_id = take 4 (sha512 (setup_id ++ device_id))

module _ (sha512 : List ℕ → List ℕ) (p : SetupPayload) (setup_id : List ℕ) where
  matches :
      (d : Discovered) (device_id : List ℕ)
      → p.setup_id ≡ some setup_id
      → (advertised d).setup_hash ≡ some (first_four sha512 setup_id device_id)
      → (id_of d ≡ device_id)
        ⊎ ((id_of d ≡ to_ascii_lowercase device_id) × All IsCanonical device_id)
      → match_kind sha512 p d ≡ some exact
  unfolding match_kind match_hash setup_hash
  matches d device_id scanned hashed (inl same) =
      rw (scanned, hashed, same, bytes_eq_refl (first_four sha512 setup_id device_id)) refl
  matches d device_id scanned hashed (inr (lower, canonical)) =
      rw
        (
          scanned,
          hashed,
          lower,
          to_ascii_uppercase-to_ascii_lowercase device_id canonical,
          bytes_eq_refl (first_four sha512 setup_id device_id),
          or_true,
        )
        refl

  differs :
      (d : Discovered) (h : List ℕ)
      → p.setup_id ≡ some setup_id
      → (advertised d).setup_hash ≡ some h
      → first_four sha512 setup_id (id_of d) ≢ h
      → first_four sha512 setup_id (to_ascii_uppercase (id_of d)) ≢ h
      → match_kind sha512 p d ≡ none
  unfolding match_kind match_hash setup_hash
  differs d h scanned hashed apart apart' =
      rw (scanned, hashed, unequal _ h apart, unequal _ h apart') refl

  -- An accessory whose advertised hash is the first four bytes of the SHA-512 of the scanned setup id and a
  -- device id matches exactly, on either transport, if its id is that device id as it was hashed, in whatever
  -- case, or if it is that device id turned to lower case and the hashed one has no lower-case letter. An
  -- accessory whose advertised hash is neither that of its id nor that of its id in upper case does not match,
  -- whatever its category.
  pub match_kind-setup_hash :
      (d other : Discovered) (device_id h : List ℕ)
      → p.setup_id ≡ some setup_id
      → (advertised d).setup_hash ≡ some (first_four sha512 setup_id device_id)
      → (id_of d ≡ device_id)
        ⊎ ((id_of d ≡ to_ascii_lowercase device_id) × All IsCanonical device_id)
      → (advertised other).setup_hash ≡ some h
      → first_four sha512 setup_id (id_of other) ≢ h
      → first_four sha512 setup_id (to_ascii_uppercase (id_of other)) ≢ h
      → (match_kind sha512 p d ≡ some exact) × (match_kind sha512 p other ≡ none)
  match_kind-setup_hash d other device_id h scanned hashed named hashed' apart apart' =
      (matches d device_id scanned hashed named, differs other h scanned hashed' apart apart')
