-- ===== src/Thread/Pdu/Batches.antt =====
-- The controller's batches against the accessory's: each side decodes what the other encodes.
use hap_rust.Common.{
  ℕ, zero, suc, ◌+◌, ◌^◌, ◌≤◌, ◌<◌, ◌≡◌, ◌≢◌, refl, sym, ap, ◌∙◌, List, [], ◌∷◌, ◌++◌, append_assoc,
  append-nil, ok, err, length, length-append, take-append, drop-append, All, to_le_bytes,
  from_le_bytes-to_le_bytes, le→leb, false, ◌==◌, ==_refl, arith,
}
use mathlib.Core.Path.{subst}
use hap_rust.Thread.Types.{OpCode, op_byte}
use hap_rust.Thread.Pdu.{
  saturate_u16, saturate_u8, encode_request, encode_from, encode_all, Response, decode_one,
  misplaced, decode_loop, decode_all,
}
use hap_rust.Thread.Accessory.{
  Request, decode_request, requests_loop, decode_requests, encode_response,
}

-- A body whose length the two-byte length field holds.
abbrev pub FitsLength : List ℕ → Type 0
FitsLength body = length body < 2 ^ 16

abbrev pub IsEntry : ℕ × List ℕ → Type 0
IsEntry (iid, body) = (iid < 2 ^ 16) × FitsLength body

abbrev pub requests_from : OpCode → ℕ → List (ℕ × List ℕ) → List Request
requests_from op idx [] = []
requests_from op idx ((iid, body) ∷ entries) =
    record { opcode = op_byte op; tid = saturate_u8 idx; iid = iid; body = body }
    ∷ requests_from op (suc idx) entries

decode_request-encode_request :
    (op : OpCode) (tid iid : ℕ) (body rest : List ℕ)
    → iid < 2 ^ 16
    → FitsLength body
    → decode_request (encode_request op tid iid body ++ rest)
      ≡ ok (record { opcode = op_byte op; tid = tid; iid = iid; body = body }, rest)
unfolding decode_request encode_request to_le_bytes
decode_request-encode_request op tid iid body rest small fits =
    rw
      (
        let e : saturate_u16 (length body) ≡ length body = omega arith in e,
        from_le_bytes-to_le_bytes 2 (length body) fits,
        from_le_bytes-to_le_bytes 2 iid small,
        le→leb (length body) (length (body ++ rest)) (omega (arith, length-append body rest)),
        take-append (length body) body rest refl,
        drop-append (length body) body rest refl,
      )
      refl

requests_loop_step :
    (fuel : ℕ) (bytes rest : List ℕ) (out : List Request) (r : Request)
    → decode_request bytes ≡ ok (r, rest)
    → requests_loop (suc fuel) bytes out ≡ requests_loop fuel rest (out ++ r ∷ [])
unfolding requests_loop
requests_loop_step fuel [] rest out r e = unfold decode_request in cc
requests_loop_step fuel (b ∷ bs) rest out r e = rw e refl

length-encode_request :
    (op : OpCode) (tid iid : ℕ) (body : List ℕ)
    → length (encode_request op tid iid body) ≡ 7 + length body
unfolding encode_request to_le_bytes
length-encode_request op tid iid body = omega arith

requests_loop-encode_from :
    (entries : List (ℕ × List ℕ)) (op : OpCode) (idx fuel : ℕ) (out : List Request)
    → All IsEntry entries
    → length (encode_from op idx entries) ≤ fuel
    → requests_loop fuel (encode_from op idx entries) out ≡ ok (out ++ requests_from op idx entries)
unfolding encode_from
requests_loop-encode_from [] op idx fuel out h p =
    unfold requests_loop in ap ok (sym (append-nil out))
requests_loop-encode_from ((iid, body) ∷ entries) op idx zero out h p = absurd (
    omega (
      arith,
      length-append (encode_request op (saturate_u8 idx) iid body)
          (encode_from op (suc idx) entries),
      length-encode_request op (saturate_u8 idx) iid body,
    ))
requests_loop-encode_from ((iid, body) ∷ entries) op idx (suc fuel) out h p =
    requests_loop_step fuel _ (encode_from op (suc idx) entries) out _
      (decode_request-encode_request op (saturate_u8 idx) iid body _ h.0.0 h.0.1)
    ∙ requests_loop-encode_from entries op (suc idx) fuel _ h.1 (
        omega (
          arith,
          length-append (encode_request op (saturate_u8 idx) iid body)
              (encode_from op (suc idx) entries),
          length-encode_request op (saturate_u8 idx) iid body,
        ))
    ∙ ap ok (append_assoc out (_ ∷ []) (requests_from op (suc idx) entries))

-- The accessory decodes a batch that the controller encoded into the same opcode, instance ids and
-- bodies in the same order, with the position of each request (255 from there on) as its
-- transaction id. The instance ids and the lengths of the bodies fit 16 bits.
pub decode_requests-encode_all :
    (op : OpCode) (entries : List (ℕ × List ℕ))
    → All IsEntry entries
    → decode_requests (encode_all op entries) ≡ ok (requests_from op 0 entries)
unfolding decode_requests encode_all
decode_requests-encode_all op entries h =
    requests_loop-encode_from entries op 0 _ [] h (omega arith)

-- The batch of responses that the accessory sends.
abbrev pub encode_responses : List Response → List ℕ
encode_responses [] = []
encode_responses (r ∷ rs) = encode_response r.tid r.status r.body ++ encode_responses rs

-- Each response carries its position, from `idx` on, as its transaction id.
abbrev pub Aligned : ℕ → List Response → Type 0
Aligned idx [] = Unit {0}
Aligned idx (r ∷ rs) = (r.tid ≡ saturate_u8 idx) × Aligned (suc idx) rs

decode_one-encode_response :
    (r : Response) (rest : List ℕ)
    → FitsLength r.body
    → decode_one (encode_response r.tid r.status r.body ++ rest) ≡ ok (r, rest)
unfolding decode_one encode_response to_le_bytes
decode_one-encode_response r rest fits =
    rw
      (
        let e : saturate_u16 (length r.body) ≡ length r.body = omega arith in e,
        from_le_bytes-to_le_bytes 2 (length r.body) fits,
        le→leb (length r.body) (length (r.body ++ rest)) (omega (arith, length-append r.body rest)),
        take-append (length r.body) r.body rest refl,
        drop-append (length r.body) r.body rest refl,
      )
      refl

length-encode_response :
    (tid status : ℕ) (body : List ℕ) → length (encode_response tid status body) ≡ 5 + length body
unfolding encode_response to_le_bytes
length-encode_response tid status body = omega arith

decode_loop_step :
    (fuel : ℕ) (bytes rest : List ℕ) (out : List Response) (r : Response)
    → decode_one bytes ≡ ok (r, rest)
    → r.tid ≡ saturate_u8 (length out)
    → decode_loop (suc fuel) bytes out ≡ decode_loop fuel rest (out ++ r ∷ [])
unfolding decode_loop
decode_loop_step fuel [] rest out r e t = unfold decode_one in cc
decode_loop_step fuel (b ∷ bs) rest out r e t =
    rw e (rw t (rw (==_refl (saturate_u8 (length out))) refl))

decode_loop-misplaced :
    (fuel : ℕ) (bytes rest : List ℕ) (out : List Response) (r : Response)
    → decode_one bytes ≡ ok (r, rest)
    → r.tid ≢ saturate_u8 (length out)
    → decode_loop (suc fuel) bytes out ≡ err misplaced
unfolding decode_loop
decode_loop-misplaced fuel [] rest out r e t = unfold decode_one in cc
decode_loop-misplaced fuel (b ∷ bs) rest out r e t =
    rw e (let no : (r.tid == saturate_u8 (length out)) ≡ false = ground arith in rw no refl)

decode_loop-encode_responses :
    (rs : List Response) (fuel : ℕ) (out : List Response) (rest : List ℕ)
    → All (λ (r : Response). FitsLength r.body) rs
    → Aligned (length out) rs
    → length (encode_responses rs) + length rest ≤ fuel
    → (left : ℕ) × (length rest ≤ left)
      × (decode_loop fuel (encode_responses rs ++ rest) out ≡ decode_loop left rest (out ++ rs))
decode_loop-encode_responses [] fuel out rest h a p =
    (fuel, omega arith, ap (decode_loop fuel rest) (sym (append-nil out)))
decode_loop-encode_responses (r ∷ rs) zero out rest h a p = absurd (
    omega (
      arith,
      length-append (encode_response r.tid r.status r.body) (encode_responses rs),
      length-encode_response r.tid r.status r.body,
    ))
decode_loop-encode_responses (r ∷ rs) (suc fuel) out rest h a p =
    let more = encode_responses rs ++ rest in
    let head = encode_response r.tid r.status r.body in
    let (left, enough, e) =
      decode_loop-encode_responses rs fuel (out ++ r ∷ []) rest h.1
        (subst (λ n. Aligned n rs) (omega (arith, length-append out (r ∷ []))) a.1)
        (omega (
          arith,
          length-append head (encode_responses rs),
          length-encode_response r.tid r.status r.body,
        )) in
    (
      left,
      enough,
      ap (λ b. decode_loop (suc fuel) b out) (append_assoc head (encode_responses rs) rest)
          ∙ decode_loop_step fuel (head ++ more) more out r (decode_one-encode_response r more h.0)
              a.0
          ∙ e
          ∙ ap (decode_loop left rest) (append_assoc out (r ∷ []) rs),
    )

-- The controller decodes the accessory's batch into the responses that it holds, in order, provided
-- that each carries its position as its transaction id and its body's length fits 16 bits.
pub decode_all-encode_responses :
    (rs : List Response)
    → All (λ (r : Response). FitsLength r.body) rs
    → Aligned 0 rs
    → decode_all (encode_responses rs) ≡ ok rs
unfolding decode_all
decode_all-encode_responses rs h a =
    let bytes = encode_responses rs in
    let (left, _, e) = decode_loop-encode_responses rs (length bytes) [] [] h a (omega arith) in
    ap (λ b. decode_loop (length bytes) b []) (sym (append-nil bytes))
    ∙ e
    ∙ unfold decode_loop in refl

-- Whatever follows, a batch is refused at the first response whose transaction id is not its
-- position.
pub decode_all-misplaced :
    (rs : List Response) (bad : Response) (rest : List ℕ)
    → All (λ (r : Response). FitsLength r.body) rs
    → Aligned 0 rs
    → FitsLength bad.body
    → bad.tid ≢ saturate_u8 (length rs)
    → decode_all (encode_responses rs ++ (encode_response bad.tid bad.status bad.body ++ rest))
      ≡ err misplaced
unfolding decode_all
decode_all-misplaced rs bad rest h a fits t =
    let tail = encode_response bad.tid bad.status bad.body ++ rest in
    let (left, enough, e) =
      decode_loop-encode_responses rs (length (encode_responses rs ++ tail)) [] tail h a
        (omega (arith, length-append (encode_responses rs) tail)) in
    e
    ∙ refused left tail rs bad rest (decode_one-encode_response bad rest fits) t (
        omega (
          arith,
          length-append (encode_response bad.tid bad.status bad.body) rest,
          length-encode_response bad.tid bad.status bad.body,
        ))
  where
    refused :
        (left : ℕ) (bytes : List ℕ) (out : List Response) (r : Response) (rest : List ℕ)
        → decode_one bytes ≡ ok (r, rest)
        → r.tid ≢ saturate_u8 (length out)
        → 0 < left
        → decode_loop left bytes out ≡ err misplaced
    refused zero bytes out r rest e t h = absurd (omega arith)
    refused (suc left) bytes out r rest e t h = decode_loop-misplaced left bytes rest out r e t
