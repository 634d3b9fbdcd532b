-- ===== src/Ble/Pdu/Termination.antt =====
-- The loop that reads a response ends, whatever the link delivers.
use hap_rust.Common.{
  ℕ, zero, suc, ◌+◌, ◌≤◌, ◌≢◌, refl, sym, ap, ◌∙◌, outcome, List, [], ◌∷◌, ◌++◌, Result, ok, err,
  stuck, ◌>>=◌, length, length-append, arith, inl, inr,
}
use hap_rust.Ble.Types.{BleError}
use hap_rust.Ble.Pdu.{
  join, reassemble, decode_response, Response, collect, receive, receive_after, decode_all_read,
}

join-ne-stuck : (out : List ℕ) (fs : List (List ℕ)) → join out fs ≢ stuck
unfolding join
join-ne-stuck out [] e = cc
join-ne-stuck out ((a ∷ b ∷ f) ∷ fs) e = join-ne-stuck (out ++ f) fs e
join-ne-stuck out ([] ∷ fs) e = cc
join-ne-stuck out ((a ∷ []) ∷ fs) e = cc

reassemble-ne-stuck : (fs : List (List ℕ)) → reassemble fs ≢ stuck
unfolding reassemble
reassemble-ne-stuck [] e = cc
reassemble-ne-stuck (f ∷ fs) e = join-ne-stuck f fs e

decode_response-ne-stuck : (pdu : List ℕ) → decode_response pdu ≢ stuck
unfolding decode_response
decode_response-ne-stuck pdu e = ground (arith, e)

err_ne_stuck : (x : BleError) → ◌≢◌ {A = Result BleError Response} (err x) stuck
err_ne_stuck x e = cc

module _ {S : Type 0} (next : S → Result BleError (List ℕ) × S)
    (answers : (s : S) → (next s).0 ≢ stuck) where
  collect-ne-stuck :
      (fuel : ℕ) (frags : List (List ℕ)) (s : S)
      → length frags ≤ 64
      → 66 ≤ fuel + length frags
      → (collect next fuel frags s).0 ≢ stuck
  unfolding collect
  collect-ne-stuck zero frags s few enough e = absurd (omega arith)
  collect-ne-stuck (suc fuel) frags s few enough e = elim (outcome (next s).0 (answers s)) [
    | inl (f, delivered) ↦ ground (
      arith,
      e,
      delivered,
      reassemble-ne-stuck frags,
      collect-ne-stuck fuel (frags ++ f ∷ []) (next s).1,
      length-append frags (f ∷ []),
    )
    | inr (x, failed) ↦ ground (arith, e, failed, reassemble-ne-stuck frags)
  ]

  decoded-ne-stuck :
      (r : Result BleError (List (List ℕ))) (s : S)
      → r ≢ stuck
      → (decode_all_read next (r, s)).0 ≢ stuck
  unfolding decode_all_read
  decoded-ne-stuck stuck s h e = h refl
  decoded-ne-stuck (err x) s h e = cc
  decoded-ne-stuck (ok fs) s h e = elim (outcome (reassemble fs) (reassemble-ne-stuck fs)) [
    | inl (pdu, whole) ↦
        decode_response-ne-stuck pdu (sym (ap (λ x. x >>= decode_response) whole) ∙ e)
    | inr (x, failed) ↦ err_ne_stuck x (sym (ap (λ y. y >>= decode_response) failed) ∙ e)
  ]

  receive_after-ne-stuck :
      (r : Result BleError (List ℕ)) (s : S) → r ≢ stuck → (receive_after next (r, s)).0 ≢ stuck
  unfolding receive_after
  receive_after-ne-stuck stuck s h e = h refl
  receive_after-ne-stuck (err x) s h e = cc
  receive_after-ne-stuck (ok first) s h e =
      let (r, s') = collect next 65 (first ∷ []) s in
      decoded-ne-stuck r s' (collect-ne-stuck 65 (first ∷ []) s (omega arith) (omega arith)) e

  -- Over a link whose reads end, the reading of a response ends with the response or an error: 65
  -- rounds are enough, since 64 incomplete fragments are an error.
  pub receive-ne-stuck : (s : S) → (receive next s).0 ≢ stuck
  unfolding receive
  receive-ne-stuck s e = receive_after-ne-stuck (next s).0 (next s).1 (answers s) e
