-- ===== src/Thread/Pdu/Inputs.antt =====
-- The controller's decoders on any payload, well formed or not.
use hap_rust.Common.{
  ℕ, zero, suc, ◌+◌, ◌≤◌, ◌≡◌, ◌≢◌, inl, inr, List, [], ◌∷◌, ◌++◌, outcome, ok-injective,
  both_steps, guard-eq-ok, ok, stuck, guard, length, take, length-drop, length-take, Bool-cases,
  ◌==◌, ==_iff, from_le_bytes, arith,
}
use mathlib.Core.Path.{subst}
use hap_rust.Tlv8.Reader
use hap_rust.Tlv8.Map
use hap_rust.Thread.Pdu.{
  saturate_u8, Response, decode_one, misplaced, decode_loop, decode_all, body_value, decode_event,
  events_loop, decode_events,
}
use hap_rust.Thread.Pdu.Batches.{Aligned}

decode_one-ne-stuck : (bytes : List ℕ) → decode_one bytes ≢ stuck
unfolding decode_one
decode_one-ne-stuck [] e = cc
decode_one-ne-stuck (a ∷ []) e = cc
decode_one-ne-stuck (a ∷ b ∷ []) e = cc
decode_one-ne-stuck (a ∷ b ∷ c ∷ []) e = cc
decode_one-ne-stuck (a ∷ b ∷ c ∷ d ∷ []) e = cc
decode_one-ne-stuck (control ∷ tid ∷ status ∷ l0 ∷ l1 ∷ rest) e = ground arith

-- A response that is decoded has taken five bytes and its body off the front.
decode_one_takes :
    (bytes : List ℕ) (r : Response) (rest : List ℕ)
    → decode_one bytes ≡ ok (r, rest)
    → length bytes ≡ 5 + length r.body + length rest
unfolding decode_one
decode_one_takes [] r rest e = cc
decode_one_takes (a ∷ []) r rest e = cc
decode_one_takes (a ∷ b ∷ []) r rest e = cc
decode_one_takes (a ∷ b ∷ c ∷ []) r rest e = cc
decode_one_takes (a ∷ b ∷ c ∷ d ∷ []) r rest e = cc
decode_one_takes (control ∷ tid ∷ status ∷ l0 ∷ l1 ∷ tail) r rest e =
    let len = from_le_bytes (l0 ∷ l1 ∷ []) in
    ground (arith, length-take len tail, length-drop len tail)

decode_loop-ne-stuck :
    (fuel : ℕ) (bytes : List ℕ) (out : List Response)
    → length bytes ≤ fuel
    → decode_loop fuel bytes out ≢ stuck
unfolding decode_loop
decode_loop-ne-stuck zero [] out h = λ e. cc
decode_loop-ne-stuck (suc fuel) [] out h = λ e. cc
decode_loop-ne-stuck zero (b ∷ bs) out h = absurd (omega arith)
decode_loop-ne-stuck (suc fuel) (b ∷ bs) out h =
    elim (outcome (decode_one (b ∷ bs)) (decode_one-ne-stuck (b ∷ bs))) [
      | inl ((r, rest), e) ↦ rw e (elim (Bool-cases (r.tid == saturate_u8 (length out))) [
        | inl placed ↦ rw placed (
            decode_loop-ne-stuck fuel rest (out ++ r ∷ [])
              (omega (arith, decode_one_takes (b ∷ bs) r rest e)))
        | inr other ↦ rw other (λ x. cc)
      ])
      | inr (x, e) ↦ rw e (λ y. cc)
    ]

-- `decode_all` ends on every payload: its loop never uses up its fuel.
pub decode_all-ne-stuck : (pdu : List ℕ) → decode_all pdu ≢ stuck
unfolding decode_all
decode_all-ne-stuck pdu = decode_loop-ne-stuck (length pdu) pdu [] (omega arith)

Aligned-append :
    (idx : ℕ) (rs : List Response) (r : Response)
    → Aligned idx rs
    → r.tid ≡ saturate_u8 (idx + length rs)
    → Aligned idx (rs ++ r ∷ [])
Aligned-append idx [] r a t = (omega arith, tt)
Aligned-append idx (x ∷ rs) r a t = (a.0, Aligned-append (suc idx) rs r a.1 (omega arith))

decode_loop-Aligned :
    (fuel : ℕ) (bytes : List ℕ) (out rs : List Response)
    → Aligned 0 out
    → decode_loop fuel bytes out ≡ ok rs
    → Aligned 0 rs
unfolding decode_loop
decode_loop-Aligned zero [] out rs a e = subst (Aligned 0) (ok-injective out rs e) a
decode_loop-Aligned (suc fuel) [] out rs a e = subst (Aligned 0) (ok-injective out rs e) a
decode_loop-Aligned zero (b ∷ bs) out rs a e = cc
decode_loop-Aligned (suc fuel) (b ∷ bs) out rs a e =
    let ((r, rest), _, tail) = both_steps _ (decode_one (b ∷ bs)) e in
    let (_, checked, loop) =
      both_steps _ (guard (r.tid == saturate_u8 (length out)) misplaced) tail in
    let placed = (==_iff r.tid (saturate_u8 (length out))).0 (guard-eq-ok _ misplaced checked) in
    decode_loop-Aligned fuel rest (out ++ r ∷ []) rs
      (Aligned-append 0 out r a (omega (arith, placed))) loop

-- In every batch that is accepted, each response carries its position as its transaction id, so the
-- results stand in the order of the requests.
pub decode_all-Aligned : (pdu : List ℕ) (rs : List Response) → decode_all pdu ≡ ok rs → Aligned 0 rs
unfolding decode_all
decode_all-Aligned pdu rs e = decode_loop-Aligned (length pdu) pdu [] rs tt e

body_value-ne-stuck : (bytes : List ℕ) → body_value bytes ≢ stuck
unfolding body_value Map.parse
body_value-ne-stuck [] e = cc
body_value-ne-stuck (b ∷ bs) e = ground (arith, Reader.parse-ne-stuck (b ∷ bs))

decode_event-ne-stuck : (bytes : List ℕ) → decode_event bytes ≢ stuck
unfolding decode_event
decode_event-ne-stuck [] e = cc
decode_event-ne-stuck (a ∷ []) e = cc
decode_event-ne-stuck (a ∷ b ∷ []) e = cc
decode_event-ne-stuck (a ∷ b ∷ c ∷ []) e = cc
decode_event-ne-stuck (a ∷ b ∷ c ∷ d ∷ []) e = cc
decode_event-ne-stuck (c ∷ i0 ∷ i1 ∷ l0 ∷ l1 ∷ rest) e =
    ground (arith, body_value-ne-stuck (take (from_le_bytes (l0 ∷ l1 ∷ [])) rest))

decode_event_takes :
    (bytes : List ℕ) (event : ℕ × List ℕ) (rest : List ℕ)
    → decode_event bytes ≡ ok (event, rest)
    → length rest + 5 ≤ length bytes
unfolding decode_event
decode_event_takes [] event rest e = cc
decode_event_takes (a ∷ []) event rest e = cc
decode_event_takes (a ∷ b ∷ []) event rest e = cc
decode_event_takes (a ∷ b ∷ c ∷ []) event rest e = cc
decode_event_takes (a ∷ b ∷ c ∷ d ∷ []) event rest e = cc
decode_event_takes (c ∷ i0 ∷ i1 ∷ l0 ∷ l1 ∷ tail) event rest e =
    ground (arith, length-drop (from_le_bytes (l0 ∷ l1 ∷ [])) tail)

events_loop-ne-stuck :
    (fuel : ℕ) (bytes : List ℕ) (out : List (ℕ × List ℕ))
    → length bytes ≤ fuel
    → events_loop fuel bytes out ≢ stuck
unfolding events_loop
events_loop-ne-stuck zero [] out h = λ e. cc
events_loop-ne-stuck (suc fuel) [] out h = λ e. cc
events_loop-ne-stuck zero (b ∷ bs) out h = absurd (omega arith)
events_loop-ne-stuck (suc fuel) (b ∷ bs) out h =
    elim (outcome (decode_event (b ∷ bs)) (decode_event-ne-stuck (b ∷ bs))) [
      | inl ((event, rest), e) ↦ rw e (
          events_loop-ne-stuck fuel rest (out ++ event ∷ [])
            (omega (arith, decode_event_takes (b ∷ bs) event rest e)))
      | inr (x, e) ↦ rw e (λ y. cc)
    ]

-- `decode_events` ends on every payload.
pub decode_events-ne-stuck : (payload : List ℕ) → decode_events payload ≢ stuck
unfolding decode_events
decode_events-ne-stuck payload = events_loop-ne-stuck (length payload) payload [] (omega arith)
