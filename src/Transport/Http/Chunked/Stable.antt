-- ===== src/Transport/Http/Chunked/Stable.antt =====
-- A chunked body that is complete stays the same however many bytes follow it.
use hap_rust.Common.{
  ℕ, zero, suc, ◌+◌, ◌*◌, ◌%◌, ◌^◌, ◌≤◌, ◌<◌, ◌≡◌, ◌≢◌, refl, sym, ap, List, [], ◌∷◌, ◌++◌, some,
  Result, ok, err, stuck, guard, both_steps, then_ok, present, ok-injective, Bool, true, false,
  ◌||◌, length, take, drop, length-append, length-drop, take-append_le, drop-append_le, ltb, ltb→le,
  le→ltb, ◌==◌, arith, Bool-cases, Option-cases, inl, inr, is_utf8,
}
use mathlib.Core.Path.{subst}
use hap_rust.Transport.Types.{malformed_http}
use hap_rust.Transport.Text.{trim, digit_value, digits_from, from_str_radix}
use hap_rust.Transport.Http.Scan.{Failure, failed, find_subslice, crlf, usize_max}
use hap_rust.Transport.Http.Scan.Stable.{length-find_subslice, find_subslice-append}
use hap_rust.Transport.Http.Chunked.{
  Chunk, more, last, piece, chunk_size, take_chunk, last_chunk, sized_chunk, next_chunk,
  chunks_loop, decode_chunked,
}

digits_from_le :
    (radix limit total : ℕ) (bs : List ℕ) (v : ℕ)
    → digits_from radix limit total bs ≡ some v
    → total ≤ limit
    → v ≤ limit
unfolding digits_from
digits_from_le radix limit total [] v e h = ground (arith, e)
digits_from_le radix limit total (b ∷ bs) v e h = elim (Option-cases (digit_value radix b)) [
  | inl n ↦ let e' = rw (n, digits_from) at e in cc
  | inr (d, s) ↦
      let e' = rw (s, digits_from) at e in
      ground (arith, e', digits_from_le radix limit (total * radix + d) bs v)
]

from_str_radix_le :
    (radix limit : ℕ) (bs : List ℕ) (v : ℕ) → from_str_radix radix limit bs ≡ some v → v ≤ limit
unfolding from_str_radix
from_str_radix_le radix limit [] v e = cc
from_str_radix_le radix limit (b ∷ []) v e =
    ground (arith, e, digits_from_le radix limit 0 (b ∷ []) v)
from_str_radix_le radix limit (b ∷ c ∷ cs) v e =
    ground (
      arith,
      e,
      digits_from_le radix limit 0 (b ∷ c ∷ cs) v,
      digits_from_le radix limit 0 (c ∷ cs) v,
    )

chunk_size_le : (line : List ℕ) (size : ℕ) → chunk_size line ≡ ok size → size ≤ usize_max
unfolding chunk_size
chunk_size_le line size e =
    let (_, _, e1) =
      both_steps _ (guard (is_utf8 line) (failed (malformed_http "bad chunk size"))) e in
    from_str_radix_le 16 usize_max (trim line) size (
      present (failed (malformed_http "bad chunk size")) (from_str_radix 16 usize_max (trim line))
        e1)

-- The sums of a chunk that was taken have not wrapped.
no_wrap :
    (a s len : ℕ)
    → a ≤ len
    → len < 2 ^ 63
    → s ≤ usize_max
    → a ≤ (a + s) % 2 ^ 64
    → (a + s) % 2 ^ 64 ≤ len
    → (a + s ≤ len) × ((a + s + 2) % 2 ^ 64 ≡ a + s + 2)
no_wrap a s len h1 h2 h3 h4 h5 = (omega arith, omega arith)

neither : (a b : Bool) → (a || b) ≡ false → (a ≡ false) × (b ≡ false)
neither true b e = cc
neither false b e = (refl, e)

-- Where the chunk ends within the bytes, after their beginning.
abbrev pub IsWithin : List ℕ → Chunk → Type 0
IsWithin rest more = Unit {0}
IsWithin rest (last end) = (0 < end) × (end ≤ length rest)
IsWithin rest (piece end bytes) = (0 < end) × (end ≤ length rest)

module _ (rest ys : List ℕ) (small : length (rest ++ ys) < 2 ^ 63) where
  take_chunk-append :
      (a s : ℕ) (c : Chunk)
      → a ≤ length rest
      → s ≤ usize_max
      → take_chunk a s rest ≡ ok c
      → c ≢ more
      → (take_chunk a s (rest ++ ys) ≡ ok c) × IsWithin rest c
  unfolding take_chunk
  take_chunk-append a s c h1 h2 e full =
      let total = length-append rest ys in
      elim (Bool-cases (ltb (length rest) ((a + s + 2) % 2 ^ 64))) [
        | inl t ↦ let e' = rw t at e in absurd (full (sym (ok-injective _ _ e')))
        | inr f ↦
            let e' = rw f at e in
            elim (Bool-cases (ltb ((a + s) % 2 ^ 64) a || ltb (length rest) ((a + s) % 2 ^ 64))) [
              | inl t ↦ let e'' = rw t at e' in cc
              | inr g ↦
                  let e'' = rw g at e' in
                  let (g1, g2) = neither _ _ g in
                  let same = ok-injective {E = Failure} _ _ e'' in
                  let (inside, flat) =
                    no_wrap a s (length rest) h1 (omega (arith, total, small)) h2 (ltb→le _ _ g1)
                      (ltb→le _ _ g2) in
                  let enough : a + s + 2 ≤ length rest =
                    omega (arith, flat, ltb→le ((a + s + 2) % 2 ^ 64) (length rest) f) in
                  subst (λ x. (take_chunk a s (rest ++ ys) ≡ ok x) × IsWithin rest x) same
                    (
                      rw
                          (
                            le→ltb ((a + s + 2) % 2 ^ 64) (length (rest ++ ys))
                                (omega (arith, flat, total)),
                            g1,
                            le→ltb ((a + s) % 2 ^ 64) (length (rest ++ ys))
                                (omega (arith, total, ltb→le ((a + s) % 2 ^ 64) (length rest) g2)),
                            drop-append_le a rest ys h1,
                            take-append_le s (drop a rest) ys
                                (omega (arith, length-drop a rest, enough)),
                          )
                          refl,
                      (omega (arith, flat), omega (arith, flat)),
                    )
            ]
      ]

  last_chunk-append :
      (a : ℕ) (c : Chunk)
      → last_chunk a rest ≡ ok c
      → c ≢ more
      → (last_chunk a (rest ++ ys) ≡ ok c) × IsWithin rest c
  unfolding last_chunk
  last_chunk-append a c e full = elim (Bool-cases (ltb (length rest) (a + 2))) [
    | inl t ↦ let e' = rw t at e in absurd (full (sym (ok-injective _ _ e')))
    | inr f ↦
        let e' = rw f at e in
        let enough = ltb→le (a + 2) (length rest) f in
        subst (λ x. (last_chunk a (rest ++ ys) ≡ ok x) × IsWithin rest x)
          (ok-injective {E = Failure} _ _ e')
          (
            rw (le→ltb (a + 2) (length (rest ++ ys)) (omega (arith, length-append rest ys, enough)))
                refl,
            (omega arith, enough),
          )
  ]

  sized_chunk-append :
      (nl : ℕ) (c : Chunk)
      → nl + 2 ≤ length rest
      → sized_chunk nl rest ≡ ok c
      → c ≢ more
      → (sized_chunk nl (rest ++ ys) ≡ ok c) × IsWithin rest c
  unfolding sized_chunk
  sized_chunk-append nl c h e full =
      let line = take-append_le nl rest ys (omega arith) in
      let (size, known, e1) = both_steps _ (chunk_size (take nl rest)) e in
      let known' : chunk_size (take nl (rest ++ ys)) ≡ ok size = rw line known in
      elim (Bool-cases (size == 0)) [
        | inl t ↦
            let (p, q) = last_chunk-append (nl + 2) c (rw t at e1) full in
            (then_ok _ known' (rw t p), q)
        | inr f ↦
            let (p, q) =
              take_chunk-append (nl + 2) size c h (chunk_size_le (take nl rest) size known)
                (rw f at e1) full in
            (then_ok _ known' (rw f p), q)
      ]

  pub next_chunk-append :
      (c : Chunk)
      → next_chunk rest ≡ ok c
      → c ≢ more
      → (next_chunk (rest ++ ys) ≡ ok c) × IsWithin rest c
  unfolding next_chunk
  next_chunk-append c e full = elim (Option-cases (find_subslice crlf rest)) [
    | inl n ↦ let e' = rw (n, next_chunk) at e in absurd (full (sym (ok-injective _ _ e')))
    | inr (nl, s) ↦
        let (p, q) =
          sized_chunk-append nl c (length-find_subslice crlf rest nl s) (rw (s, next_chunk) at e)
            full in
        (rw (find_subslice-append crlf rest ys nl s, next_chunk) p, q)
  ]

-- A run of the loop that ends with a body takes some of the bytes, and ends alike where more follow.
abbrev Same : (g : ℕ) (rest ys body : List ℕ) (n : ℕ) (b : List ℕ) (m : ℕ) → Type 0
Same g rest ys body n b m =
    (chunks_loop g (rest ++ ys) body n ≡ ok (some (b, m))) × (n < m) × (m ≤ n + length rest)

chunks_step :
    (f g : ℕ) (rest ys body : List ℕ) (n : ℕ) (b : List ℕ) (m : ℕ) (r : Result Failure Chunk)
    → length (rest ++ ys) < 2 ^ 63
    → ((rest' body' : List ℕ) (n' : ℕ)
        → length (rest' ++ ys) < 2 ^ 63
        → chunks_loop f rest' body' n' ≡ ok (some (b, m))
        → Same g rest' ys body' n' b m)
    → next_chunk rest ≡ r
    → chunks_loop (suc f) rest body n ≡ ok (some (b, m))
    → Same (suc g) rest ys body n b m
unfolding chunks_loop
chunks_step f g rest ys body n b m (ok more) small ih k e = let e' = rw (k, chunks_loop) at e in cc
chunks_step f g rest ys body n b m (ok (last end)) small ih k e =
    let e' = rw (k, chunks_loop) at e in
    let (p, q) = next_chunk-append rest ys small (last end) k (λ x. cc) in
    let same : (body, n + end) ≡ (b, m) = cc in
    (
      rw (p, chunks_loop) (ap (λ x. ok (some x)) same),
      omega (arith, ap (λ x. x.1) same),
      omega (arith, ap (λ x. x.1) same),
    )
chunks_step f g rest ys body n b m (ok (piece end bytes)) small ih k e =
    let e' = rw (k, chunks_loop) at e in
    let (p, (pos, fits)) = next_chunk-append rest ys small (piece end bytes) k (λ x. cc) in
    let (l, lo, hi) =
      ih (drop end rest) (body ++ bytes) (n + end)
        (omega (
          arith,
          length-append (drop end rest) ys,
          length-drop end rest,
          length-append rest ys,
          small,
        ))
        e' in
    (
      rw (p, chunks_loop, drop-append_le end rest ys fits) l,
      omega arith,
      omega (arith, length-drop end rest),
    )
chunks_step f g rest ys body n b m (err x) small ih k e = let e' = rw (k, chunks_loop) at e in cc
chunks_step f g rest ys body n b m stuck small ih k e = let e' = rw (k, chunks_loop) at e in cc

chunks_loop-append :
    (f g : ℕ) (rest ys body : List ℕ) (n : ℕ) (b : List ℕ) (m : ℕ)
    → f ≤ g
    → length (rest ++ ys) < 2 ^ 63
    → chunks_loop f rest body n ≡ ok (some (b, m))
    → Same g rest ys body n b m
unfolding chunks_loop
chunks_loop-append zero g rest ys body n b m h small e = cc
chunks_loop-append (suc f) zero rest ys body n b m h small e = absurd (omega arith)
chunks_loop-append (suc f) (suc g) rest ys body n b m h small e =
    chunks_step f g rest ys body n b m (next_chunk rest) small
      (λ rest' body' n'. chunks_loop-append f g rest' ys body' n' b m (omega arith)) refl e

pub decode_chunked-append :
    (rest ys : List ℕ) (b : List ℕ) (m : ℕ)
    → length (rest ++ ys) < 2 ^ 63
    → decode_chunked rest ≡ ok (some (b, m))
    → (decode_chunked (rest ++ ys) ≡ ok (some (b, m))) × (m ≤ length rest)
unfolding decode_chunked
decode_chunked-append rest ys b m small e =
    let (p, lo, hi) =
      chunks_loop-append (suc (length rest)) (suc (length (rest ++ ys))) rest ys [] 0 b m
        (omega (arith, length-append rest ys)) small e in
    (p, omega arith)
