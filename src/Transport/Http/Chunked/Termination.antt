-- ===== src/Transport/Http/Chunked/Termination.antt =====
-- `decode_chunked` ends: its rounds are enough for the bytes that it is given.
use hap_rust.Common.{
  ℕ, zero, suc, ◌+◌, ◌^◌, ◌≤◌, ◌<◌, ◌≡◌, ◌≢◌, refl, List, [], ◌++◌, Result, ok, err, stuck, guard,
  ok-ne-stuck, err-ne-stuck, ok_or-ne-stuck, guard-ne-stuck, bind-ne-stuck, if-ne-stuck, length,
  take, drop, length-append, length-drop, ltb, ◌==◌, arith, Option-cases, inl, inr, is_utf8,
}
use hap_rust.Transport.Types.{malformed_http}
use hap_rust.Transport.Text.{trim, from_str_radix}
use hap_rust.Transport.Http.Scan.{Failure, failed, find_subslice, crlf, usize_max}
use hap_rust.Transport.Http.Chunked.{
  Chunk, more, last, piece, chunk_size, take_chunk, last_chunk, sized_chunk, next_chunk,
  chunks_loop,
}
use hap_rust.Transport.Http.Chunked.Stable.{next_chunk-append}

chunk_size-ne-stuck : (line : List ℕ) → chunk_size line ≢ stuck
unfolding chunk_size
chunk_size-ne-stuck line =
    bind-ne-stuck (guard (is_utf8 line) (failed (malformed_http "bad chunk size"))) _
      (guard-ne-stuck _ _) (λ u. ok_or-ne-stuck (from_str_radix 16 usize_max (trim line)) _)

sized_chunk-ne-stuck : (nl : ℕ) (rest : List ℕ) → sized_chunk nl rest ≢ stuck
unfolding sized_chunk last_chunk take_chunk
sized_chunk-ne-stuck nl rest =
    bind-ne-stuck (chunk_size (take nl rest)) _ (chunk_size-ne-stuck (take nl rest)) (λ size.
      if-ne-stuck (size == 0) _ _
        (if-ne-stuck (ltb (length rest) (nl + 2 + 2)) _ _ (ok-ne-stuck _) (ok-ne-stuck _))
        (if-ne-stuck _ _ _ (ok-ne-stuck _) (if-ne-stuck _ _ _ (err-ne-stuck _) (ok-ne-stuck _))))

next_chunk-ne-stuck : (rest : List ℕ) → next_chunk rest ≢ stuck
unfolding next_chunk
next_chunk-ne-stuck rest e = elim (Option-cases (find_subslice crlf rest)) [
  | inl n ↦ let e' = rw (n, next_chunk) at e in cc
  | inr (nl, s) ↦ sized_chunk-ne-stuck nl rest (rw (s, next_chunk) at e)
]

chunks_step :
    (f : ℕ) (rest body : List ℕ) (n : ℕ) (r : Result Failure Chunk)
    → length rest < 2 ^ 63
    → ((end : ℕ) (body' : List ℕ) (n' : ℕ)
        → 0 < end
        → end ≤ length rest
        → chunks_loop f (drop end rest) body' n' ≢ stuck)
    → next_chunk rest ≡ r
    → r ≢ stuck
    → chunks_loop (suc f) rest body n ≢ stuck
unfolding chunks_loop
chunks_step f rest body n (ok more) small ih k h e = let e' = rw (k, chunks_loop) at e in cc
chunks_step f rest body n (ok (last end)) small ih k h e = let e' = rw (k, chunks_loop) at e in cc
chunks_step f rest body n (ok (piece end bytes)) small ih k h e =
    let e' = rw (k, chunks_loop) at e in
    let (_, (lo, hi)) =
      next_chunk-append rest [] (omega (arith, length-append rest [], small)) (piece end bytes) k
        (λ x. cc) in
    ih end (body ++ bytes) (n + end) lo hi e'
chunks_step f rest body n (err x) small ih k h e = let e' = rw (k, chunks_loop) at e in cc
chunks_step f rest body n stuck small ih k h e = h refl

pub chunks_loop-ne-stuck :
    (f : ℕ) (rest body : List ℕ) (n : ℕ)
    → length rest < f
    → length rest < 2 ^ 63
    → chunks_loop f rest body n ≢ stuck
chunks_loop-ne-stuck zero rest body n h small = absurd (omega arith)
chunks_loop-ne-stuck (suc f) rest body n h small =
    chunks_step f rest body n (next_chunk rest) small
      (λ end body' n' lo hi.
        let shorter = length-drop end rest in
        chunks_loop-ne-stuck f (drop end rest) body' n' (omega (arith, shorter, lo, hi, h))
          (omega (arith, shorter, small)))
      refl (next_chunk-ne-stuck rest)
