-- ===== src/Transport/Http/Termination.antt =====
-- The parser and the demultiplexer end: their rounds are enough for the bytes that they are given.
use hap_rust.Common.{
  ℕ, zero, suc, ◌+◌, ◌^◌, ◌≤◌, ◌<◌, ◌≡◌, ◌≢◌, refl, List, [], ◌∷◌, ◌++◌, Result, ok, err, stuck,
  ok-ne-stuck, err-ne-stuck, bind-ne-stuck, if-ne-stuck, Bool, true, false, length, take, drop,
  length-append, length-drop, ltb, arith, Option-cases, inl, inr,
}
use hap_rust.Transport.Http.Scan.{
  Failure, find_subslice, starts_with, split_crlf, event_prefix, http_prefix,
}
use hap_rust.Transport.Http.Headers.{Head, parse_head}
use hap_rust.Transport.Http.Chunked.{decode_chunked}
use hap_rust.Transport.Http.{
  parse_body, parse_at, parse_message, Demuxed, Front, waiting, message, front_of, demux_front,
  demux_loop, demux_messages, or_zero,
}
use hap_rust.Transport.Http.Stable.{demux_front-append}
use hap_rust.Transport.Http.Chunked.Termination.{chunks_loop-ne-stuck}
use hap_rust.Transport.Http.Headers.Termination.{read_block-ne-stuck}

parse_body-ne-stuck :
    (head : Head) (rest : List ℕ) → length rest < 2 ^ 63 → parse_body head rest ≢ stuck
unfolding parse_body decode_chunked
parse_body-ne-stuck head rest small =
    if-ne-stuck head.chunked _ _
      (chunks_loop-ne-stuck (suc (length rest)) rest [] 0 (omega arith) small)
      (if-ne-stuck (ltb (length rest) (or_zero head.content_length)) _ _ (ok-ne-stuck _)
        (ok-ne-stuck _))

parse_at-ne-stuck :
    (prefix buf : List ℕ) (i : ℕ) → length buf < 2 ^ 63 → parse_at prefix buf i ≢ stuck
unfolding parse_at parse_head
parse_at-ne-stuck prefix buf i small =
    bind-ne-stuck _ _ (read_block-ne-stuck prefix (split_crlf (take i buf))) (λ x.
      bind-ne-stuck _ _
        (parse_body-ne-stuck x.1 (drop (i + 4) buf) (omega (arith, length-drop (i + 4) buf, small)))
        (λ o. ok-ne-stuck _))

parse_message-ne-stuck :
    (buf prefix : List ℕ) → length buf < 2 ^ 63 → parse_message buf prefix ≢ stuck
unfolding parse_message
parse_message-ne-stuck buf prefix small e =
    elim (Option-cases (find_subslice (13 ∷ 10 ∷ 13 ∷ 10 ∷ []) buf)) [
      | inl n ↦ let e' = rw (n, parse_message) at e in cc
      | inr (i, s) ↦ parse_at-ne-stuck prefix buf i small (rw (s, parse_message) at e)
    ]

demux_front-ne-stuck : (rest : List ℕ) → length rest < 2 ^ 63 → demux_front rest ≢ stuck
unfolding demux_front
demux_front-ne-stuck [] small = ok-ne-stuck _
demux_front-ne-stuck (b ∷ bs) small =
    let ends = λ (is_event : Bool) (prefix : List ℕ).
      bind-ne-stuck (parse_message (b ∷ bs) prefix) (λ o. ok (front_of is_event o))
        (parse_message-ne-stuck (b ∷ bs) prefix small) (λ o. ok-ne-stuck _) in
    if-ne-stuck (starts_with event_prefix (b ∷ bs)) _ _ (ends true event_prefix) (
      if-ne-stuck (starts_with http_prefix (b ∷ bs)) _ _ (ends false http_prefix)
        (if-ne-stuck (ltb (length (b ∷ bs)) 9) _ _ (ok-ne-stuck _) (err-ne-stuck _)))

demux_step :
    (f : ℕ) (rest : List ℕ) (out : List Demuxed) (n : ℕ) (r : Result Failure Front)
    → length rest < 2 ^ 63
    → ((k : ℕ) (out' : List Demuxed) (n' : ℕ)
        → 0 < k
        → k ≤ length rest
        → demux_loop f (drop k rest) out' n' ≢ stuck)
    → demux_front rest ≡ r
    → r ≢ stuck
    → demux_loop (suc f) rest out n ≢ stuck
unfolding demux_loop
demux_step f rest out n (ok waiting) small ih k h e = let e' = rw (k, demux_loop) at e in cc
demux_step f rest out n (ok (message m used)) small ih k h e =
    let e' = rw (k, demux_loop) at e in
    let (_, lo, hi) =
      demux_front-append rest [] m used (omega (arith, length-append rest [], small)) k in
    ih used (out ++ m ∷ []) (n + used) lo hi e'
demux_step f rest out n (err x) small ih k h e = let e' = rw (k, demux_loop) at e in cc
demux_step f rest out n stuck small ih k h e = h refl

demux_loop-ne-stuck :
    (f : ℕ) (rest : List ℕ) (out : List Demuxed) (n : ℕ)
    → length rest < f
    → length rest < 2 ^ 63
    → demux_loop f rest out n ≢ stuck
demux_loop-ne-stuck zero rest out n h small = absurd (omega arith)
demux_loop-ne-stuck (suc f) rest out n h small =
    demux_step f rest out n (demux_front rest) small
      (λ k out' n' lo hi.
        let shorter = length-drop k rest in
        demux_loop-ne-stuck f (drop k rest) out' n' (omega (arith, shorter, lo, hi, h))
          (omega (arith, shorter, small)))
      refl (demux_front-ne-stuck rest small)

-- On every buffer that a slice can be, with fewer than 2 ^ 63 bytes, `demux_messages` ends: with messages,
-- an error, or the panic of `decode_chunked`.
pub demux_messages-ne-stuck : (buf : List ℕ) → length buf < 2 ^ 63 → demux_messages buf ≢ stuck
unfolding demux_messages
demux_messages-ne-stuck buf small =
    demux_loop-ne-stuck (suc (length buf)) buf [] 0 (omega arith) small
