-- ===== src/Transport/Record/Frames.antt =====
-- A frame that `encrypt_frame` made, given to `decrypt_frame` whole, in part, or with more behind it.
use hap_rust.Common.{
  ℕ, ◌+◌, ◌≤◌, ◌<◌, ◌≡◌, ◌≢◌, append_assoc, append_split, length_pos, refl, sym, ap, ◌∙◌, List, [],
  ◌∷◌, ◌++◌, none, some, ok, err, length, length-append, take-append, to_le_bytes,
  length-to_le_bytes, from_le_bytes-to_le_bytes, le→ltb, lt→ltb, arith,
}
use native.Mathlib.Decide.{dec_le, dec_lt}
use hap_rust.Crypto.Aead.{Chacha, ChachaLaws, max_message, tag_len}
use hap_rust.Transport.Types.{invalid_frame_length}
use hap_rust.Transport.Record.{
  max_block, len_prefix, nonce, advance, frame_len, seal_frame, encrypt_frame, open_frame,
  decrypt_frame,
}

module _ (c : Chacha) (laws : ChachaLaws c) where
  -- What a successful call has made.
  pub record IsFrame (key : List ℕ) (counter : ℕ) (block frame : List ℕ) (next : ℕ) : Type 0 where
    pub sealed : List ℕ
    pub fits : length block ≤ max_block
    pub seals : c.seal key (nonce counter) (to_le_bytes 2 (length block)) block ≡ some sealed
    pub layout : frame ≡ to_le_bytes 2 (length block) ++ sealed
    pub stepped : next ≡ advance counter

  encrypt_frame_sealed :
      (key : List ℕ) (counter : ℕ) (block sealed : List ℕ)
      → length block ≤ max_block
      → c.seal key (nonce counter) (to_le_bytes 2 (length block)) block ≡ some sealed
      → encrypt_frame c key counter block
        ≡ (ok (to_le_bytes 2 (length block) ++ sealed), advance counter)
  unfolding encrypt_frame
  encrypt_frame_sealed key counter block sealed fits s =
      rw (le→ltb (length block) max_block fits) (rw (s, seal_frame) refl)

  pub encrypt_frame_fits :
      (key : List ℕ) (counter : ℕ) (block : List ℕ)
      → length block ≤ max_block
      → (frame : List ℕ) × (next : ℕ) × (encrypt_frame c key counter block ≡ (ok frame, next))
  encrypt_frame_fits key counter block fits =
      let (sealed, s) =
        laws.seals key (nonce counter) (to_le_bytes 2 (length block)) block (omega arith) in
      (
        to_le_bytes 2 (length block) ++ sealed,
        advance counter,
        encrypt_frame_sealed key counter block sealed fits s,
      )

  encrypt_frame_long :
      (key : List ℕ) (counter : ℕ) (block : List ℕ)
      → max_block < length block
      → encrypt_frame c key counter block ≡ (err (invalid_frame_length (length block)), counter)
  unfolding encrypt_frame
  encrypt_frame_long key counter block long = rw (lt→ltb max_block (length block) long) refl

  pub encrypt_frame-IsFrame :
      (key : List ℕ) (counter : ℕ) (block frame : List ℕ) (next : ℕ)
      → encrypt_frame c key counter block ≡ (ok frame, next)
      → IsFrame key counter block frame next
  encrypt_frame-IsFrame key counter block frame next e = elim (dec_le (length block) max_block) [
    | yes fits ↦
        let message : length block ≤ max_message = omega arith in
        let (sealed, s) =
          laws.seals key (nonce counter) (to_le_bytes 2 (length block)) block message in
        let made = encrypt_frame_sealed key counter block sealed fits s in
        record { sealed = sealed; fits = fits; seals = s; layout = cc; stepped = cc }
    | no long ↦ cc (encrypt_frame_long key counter block (omega arith))
  ]

  open_frame_sealed :
      (key : List ℕ) (counter : ℕ) (block sealed : List ℕ)
      → c.seal key (nonce counter) (to_le_bytes 2 (length block)) block ≡ some sealed
      → open_frame c key counter (to_le_bytes 2 (length block)) sealed
        ≡ (ok (some block), advance counter)
  unfolding open_frame
  open_frame_sealed key counter block sealed s = rw (laws.opens _ _ _ _ _ s, open_frame) refl

  decrypt_frame_sealed :
      (key : List ℕ) (counter : ℕ) (block sealed rest : List ℕ)
      → length block ≤ max_block
      → c.seal key (nonce counter) (to_le_bytes 2 (length block)) block ≡ some sealed
      → decrypt_frame c key counter (to_le_bytes 2 (length block) ++ (sealed ++ rest))
        ≡ (ok (some block), advance counter)
  unfolding decrypt_frame to_le_bytes
  decrypt_frame_sealed key counter block sealed rest fits s =
      let tagged = laws.tag _ _ _ _ _ s in
      rw
        (
          from_le_bytes-to_le_bytes 2 (length block) (omega arith),
          le→ltb (length block) max_block fits,
          le→ltb (frame_len (length block)) (len_prefix + length (sealed ++ rest))
              (omega (arith, length-append sealed rest)),
          take-append (length block + tag_len) sealed rest (sym tagged),
        )
        (open_frame_sealed key counter block sealed s)

  -- `decrypt_frame` undoes `encrypt_frame` at the same key and counter, whatever follows the frame,
  -- and both counters step alike.
  pub decrypt_frame-encrypt_frame :
      (key : List ℕ) (counter : ℕ) (block frame rest : List ℕ) (next : ℕ)
      → encrypt_frame c key counter block ≡ (ok frame, next)
      → decrypt_frame c key counter (frame ++ rest) ≡ (ok (some block), next)
  decrypt_frame-encrypt_frame key counter block frame rest next e =
      let f = encrypt_frame-IsFrame key counter block frame next e in
      ap (λ b. decrypt_frame c key counter (b ++ rest)) f.layout
      ∙ ap (decrypt_frame c key counter) (append_assoc (to_le_bytes 2 (length block)) f.sealed rest)
      ∙ decrypt_frame_sealed key counter block f.sealed rest f.fits f.seals
      ∙ ap (λ n. (ok (some block), n)) (sym f.stepped)

  pub length-frame :
      (key : List ℕ) (counter : ℕ) (block frame : List ℕ) (next : ℕ)
      → encrypt_frame c key counter block ≡ (ok frame, next)
      → length frame ≡ frame_len (length block)
  length-frame key counter block frame next e =
      let f = encrypt_frame-IsFrame key counter block frame next e in
      omega (
        arith,
        ap length f.layout,
        length-append (to_le_bytes 2 (length block)) f.sealed,
        length-to_le_bytes 2 (length block),
        laws.tag _ _ _ _ _ f.seals,
      )

  partial_frame :
      (key : List ℕ) (counter : ℕ) (n : ℕ) (front : List ℕ)
      → n ≤ max_block
      → length front < n + tag_len
      → decrypt_frame c key counter (to_le_bytes 2 n ++ front) ≡ (ok none, counter)
  unfolding decrypt_frame to_le_bytes
  partial_frame key counter n front fits h =
      rw
        (
          from_le_bytes-to_le_bytes 2 n (omega arith),
          le→ltb n max_block fits,
          lt→ltb (len_prefix + length front) (frame_len n) (omega arith),
        )
        refl

  short_frame :
      (key : List ℕ) (counter : ℕ) (front : List ℕ)
      → length front < 2
      → decrypt_frame c key counter front ≡ (ok none, counter)
  unfolding decrypt_frame
  short_frame key counter [] h = refl
  short_frame key counter (b ∷ []) h = refl
  short_frame key counter (b0 ∷ b1 ∷ rest) h = absurd (omega arith)

  -- On every proper prefix of a frame `decrypt_frame` asks for more bytes and keeps its counter.
  pub decrypt_frame_partial :
      (key : List ℕ) (counter : ℕ) (block front back : List ℕ) (next : ℕ)
      → encrypt_frame c key counter block ≡ (ok (front ++ back), next)
      → back ≢ []
      → decrypt_frame c key counter front ≡ (ok none, counter)
  decrypt_frame_partial key counter block front back next e more =
      let f = encrypt_frame-IsFrame key counter block (front ++ back) next e in
      elim (dec_lt (length front) 2) [
        | yes short ↦ short_frame key counter front short
        | no long ↦
            let header = to_le_bytes 2 (length block) in
            let (ws, p, q) =
              append_split header f.sealed front back (sym f.layout)
                (omega (arith, length-to_le_bytes 2 (length block))) in
            rw p (
              partial_frame key counter (length block) ws f.fits (
                omega (
                  arith,
                  laws.tag _ _ _ _ _ f.seals,
                  ap length q,
                  length-append ws back,
                  length_pos back more,
                )))
      ]
