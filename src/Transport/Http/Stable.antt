-- ===== src/Transport/Http/Stable.antt =====
-- A message that is complete stays the same however many bytes follow it, and the messages at the front
-- of the plaintext are found alike whether the rest has arrived or not.
use hap_rust.Common.{
  ℕ, ◌+◌, ◌^◌, ◌≤◌, ◌<◌, ◌≡◌, ap, ◌∙◌, List, [], ◌∷◌, ◌++◌, Option, none, some, ok, both_steps,
  then_ok, ok-injective, Bool, true, false, length, take, drop, length-append, length-drop,
  take-append_le, drop-append_le, ltb, ltb→le, le→ltb, arith, Bool-cases, Option-cases, inl, inr,
}
use mathlib.Core.Path.{subst}
use hap_rust.Transport.Http.Scan.{
  HapResponse, ParseOutcome, complete, incomplete, find_subslice, starts_with, event_prefix,
  http_prefix,
}
use hap_rust.Transport.Http.Scan.Stable.{
  length-find_subslice, find_subslice-append, starts_with-append, length-starts_with,
}
use hap_rust.Transport.Http.Headers.{Head, parse_head}
use hap_rust.Transport.Http.Chunked.{decode_chunked}
use hap_rust.Transport.Http.Chunked.Stable.{decode_chunked-append}
use hap_rust.Transport.Http.{
  or_zero, parse_body, outcome_of, parse_at, parse_message, Demuxed, message, demuxed, front_of,
  front_message, demux_front,
}

parse_body-append :
    (head : Head) (rest ys b : List ℕ) (m : ℕ)
    → length (rest ++ ys) < 2 ^ 63
    → parse_body head rest ≡ ok (some (b, m))
    → (parse_body head (rest ++ ys) ≡ ok (some (b, m))) × (m ≤ length rest)
unfolding parse_body
parse_body-append head rest ys b m small e = elim (Bool-cases head.chunked) [
  | inl t ↦
      let e' : decode_chunked rest ≡ ok (some (b, m)) = rw (t, parse_body) at e in
      let (p, q) = decode_chunked-append rest ys b m small e' in (rw t p, q)
  | inr f ↦
      let e' = rw (f, parse_body) at e in
      elim (Bool-cases (ltb (length rest) (or_zero head.content_length))) [
        | inl t ↦ let e'' = rw t at e' in cc
        | inr g ↦
            let e'' = rw g at e' in
            let fits = ltb→le (or_zero head.content_length) (length rest) g in
            let same : ◌≡◌ {A = List ℕ × ℕ}
                (take (or_zero head.content_length) rest, or_zero head.content_length) (b, m) =
              cc in
            (
              rw
                  (
                    f,
                    le→ltb (or_zero head.content_length) (length (rest ++ ys))
                        (omega (arith, length-append rest ys, fits)),
                    take-append_le (or_zero head.content_length) rest ys fits,
                  )
                  (ap (λ x. ok (some x)) same),
              subst (λ x. x ≤ length rest) (ap (λ x. x.1) same) fits,
            )
      ]
]

-- The body of a message that is complete.
complete_body :
    (status i : ℕ) (head : Head) (rest ys : List ℕ) (o : Option (List ℕ × ℕ)) (r : HapResponse)
    (n : ℕ)
    → length (rest ++ ys) < 2 ^ 63
    → parse_body head rest ≡ ok o
    → outcome_of status head (i + 4) o ≡ complete r n
    → (parse_body head (rest ++ ys) ≡ ok o) × (0 < n) × (n ≤ i + 4 + length rest)
unfolding outcome_of
complete_body status i head rest ys none r n small k e = cc
complete_body status i head rest ys (some (b, m)) r n small k e =
    let (p, q) = parse_body-append head rest ys b m small k in
    let same : i + 4 + m ≡ n = cc in (p, omega (arith, same), omega (arith, same, q))

parse_at-append :
    (prefix buf ys : List ℕ) (i : ℕ) (r : HapResponse) (n : ℕ)
    → i + 4 ≤ length buf
    → length (buf ++ ys) < 2 ^ 63
    → parse_at prefix buf i ≡ ok (complete r n)
    → (parse_at prefix (buf ++ ys) i ≡ ok (complete r n)) × (0 < n) × (n ≤ length buf)
unfolding parse_at outcome_of
parse_at-append prefix buf ys i r n h small e =
    let ((status, head), k, e1) = both_steps _ (parse_head prefix (take i buf)) e in
    let (o, known, e2) = both_steps _ (parse_body head (drop (i + 4) buf)) e1 in
    let cut = drop-append_le (i + 4) buf ys h in
    let tail = length-drop (i + 4) buf in
    let made = ok-injective _ _ e2 in
    let (p, lo, hi) =
      complete_body status i head (drop (i + 4) buf) ys o r n
        (omega (arith, length-append (drop (i + 4) buf) ys, tail, length-append buf ys, small))
        known made in
    (
      rw (take-append_le i buf ys (omega arith), cut) (then_ok _ k (then_ok _ p (ap ok made))),
      lo,
      omega (arith, tail, hi, h),
    )

-- Taken from the front of the bytes: the message of a complete parse.
pub parse_message-append :
    (buf ys prefix : List ℕ) (r : HapResponse) (n : ℕ)
    → length (buf ++ ys) < 2 ^ 63
    → parse_message buf prefix ≡ ok (complete r n)
    → (parse_message (buf ++ ys) prefix ≡ ok (complete r n)) × (0 < n) × (n ≤ length buf)
unfolding parse_message
parse_message-append buf ys prefix r n small e =
    let needle : List ℕ = 13 ∷ 10 ∷ 13 ∷ 10 ∷ [] in
    elim (Option-cases (find_subslice needle buf)) [
      | inl t ↦ let e' = rw (t, parse_message) at e in cc
      | inr (i, s) ↦
          let e' = rw (s, parse_message) at e in
          let (p, lo, hi) =
            parse_at-append prefix buf ys i r n (length-find_subslice needle buf i s) small e' in
          (rw (find_subslice-append needle buf ys i s, parse_message) p, lo, hi)
    ]

front_complete :
    (is_event : Bool) (o : ParseOutcome) (m : Demuxed) (n : ℕ)
    → front_of is_event o ≡ message m n
    → (r : HapResponse) × (o ≡ complete r n) × (demuxed is_event r ≡ m)
front_complete is_event incomplete m n e = cc
front_complete is_event (complete r k) m n e =
    let same : k ≡ n = cc in (r, ap (complete r) same, cc)

front_message-append :
    (is_event : Bool) (buf ys prefix : List ℕ) (m : Demuxed) (n : ℕ)
    → length (buf ++ ys) < 2 ^ 63
    → front_message is_event (parse_message buf prefix) ≡ ok (message m n)
    → (front_message is_event (parse_message (buf ++ ys) prefix) ≡ ok (message m n))
      × (0 < n)
      × (n ≤ length buf)
front_message-append is_event buf ys prefix m n small e =
    let (o, k, e1) = both_steps _ (parse_message buf prefix) e in
    let (r, whole, same) = front_complete is_event o m n (ok-injective _ _ e1) in
    let (p, lo, hi) = parse_message-append buf ys prefix r n small (k ∙ ap ok whole) in
    (then_ok _ p (ap (λ x. ok (message x n)) same), lo, hi)

no_event :
    (b : ℕ) (bs : List ℕ)
    → starts_with http_prefix (b ∷ bs) ≡ true
    → starts_with event_prefix (b ∷ bs) ≡ false
unfolding starts_with
no_event b bs e = ground (arith, e)

pub demux_front-append :
    (rest ys : List ℕ) (m : Demuxed) (n : ℕ)
    → length (rest ++ ys) < 2 ^ 63
    → demux_front rest ≡ ok (message m n)
    → (demux_front (rest ++ ys) ≡ ok (message m n)) × (0 < n) × (n ≤ length rest)
unfolding demux_front
demux_front-append [] ys m n small e = cc
demux_front-append (b ∷ bs) ys m n small e =
    let longer = λ (prefix : List ℕ) (t : starts_with prefix (b ∷ bs) ≡ true).
      starts_with-append prefix (b ∷ bs) ys (length-starts_with prefix (b ∷ bs) t) ∙ t in
    elim (Bool-cases (starts_with event_prefix (b ∷ bs))) [
      | inl t ↦
          let e' = rw (t, demux_front) at e in
          let (p, lo, hi) = front_message-append true (b ∷ bs) ys event_prefix m n small e' in
          (rw (longer event_prefix t) p, lo, hi)
      | inr f ↦
          let e' = rw (f, demux_front) at e in
          elim (Bool-cases (starts_with http_prefix (b ∷ bs))) [
            | inl t ↦
                let e'' = rw t at e' in
                let (p, lo, hi) =
                  front_message-append false (b ∷ bs) ys http_prefix m n small e'' in
                (rw (no_event b (bs ++ ys) (longer http_prefix t), longer http_prefix t) p, lo, hi)
            | inr g ↦
                let e'' = rw g at e' in
                elim (Bool-cases (ltb (length (b ∷ bs)) 9)) [
                  | inl t ↦ let e3 = rw t at e'' in cc
                  | inr k ↦ let e3 = rw k at e'' in cc
                ]
          ]
    ]
