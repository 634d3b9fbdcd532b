-- ===== src/Transport/Http/Chunked/Overflow.antt =====
-- What `decode_chunked` does with a size that the sums of the code cannot hold.
use hap_rust.Common.{
  ℕ, ◌+◌, ◌%◌, ◌^◌, ◌≤◌, ◌<◌, ◌≡◌, refl, List, some, ok, err, then_ok, true, false, ◌||◌, length,
  take, ltb, lt→ltb, le→ltb, ltb→le, ◌==◌, arith, Bool-cases, inl, inr,
}
use hap_rust.Transport.Http.Scan.{panicked, find_subslice, crlf, usize_max}
use hap_rust.Transport.Http.Chunked.{
  chunk_size, take_chunk, sized_chunk, next_chunk, chunks_loop, decode_chunked,
}

-- The end of the data is before its beginning, or behind the last byte.
out_of_range :
    (a s len : ℕ)
    → a < len
    → len < 2 ^ 63
    → s ≤ usize_max
    → 2 ^ 64 ≤ a + s + 2
    → (ltb ((a + s) % 2 ^ 64) a || ltb len ((a + s) % 2 ^ 64)) ≡ true
out_of_range a s len h1 h2 h3 h4 = elim (Bool-cases (ltb ((a + s) % 2 ^ 64) a)) [
  | inl t ↦ rw t refl
  | inr f ↦
      rw
        (
          f,
          lt→ltb len ((a + s) % 2 ^ 64)
              (omega (arith, ltb→le a ((a + s) % 2 ^ 64) f, h1, h2, h3, h4)),
        )
        refl
]

-- A first chunk whose size makes the sums of `decode_chunked` pass 2 ^ 64 panics, as soon as a byte stands
-- behind its line: no check refuses such a size.
pub decode_chunked_panics :
    (rest : List ℕ) (nl size : ℕ)
    → find_subslice crlf rest ≡ some nl
    → chunk_size (take nl rest) ≡ ok size
    → size ≤ usize_max
    → 2 ^ 64 ≤ nl + size + 4
    → nl + 2 < length rest
    → length rest < 2 ^ 63
    → decode_chunked rest ≡ err panicked
unfolding decode_chunked chunks_loop next_chunk sized_chunk take_chunk
decode_chunked_panics rest nl size s known le big behind small =
    let end = (nl + 2 + size + 2) % 2 ^ 64 in
    let arrived : ltb (length rest) end ≡ false = le→ltb end (length rest) (omega arith) in
    let not_zero : (size == 0) ≡ false = ground (arith, big, behind, small) in
    let bad = out_of_range (nl + 2) size (length rest) behind small le (omega arith) in
    let first : next_chunk rest ≡ err panicked =
      rw (s, next_chunk) (then_ok _ known (rw (not_zero, arrived, bad) refl)) in
    rw (first, chunks_loop) refl
