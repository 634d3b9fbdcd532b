-- ===== src/Transport/Http/Demux.antt =====
-- `demux_messages` of crates/hap-transport/src/session.rs on bytes that arrive in pieces.
use hap_rust.Common.{
  ℕ, zero, suc, ◌+◌, ◌^◌, ◌≤◌, ◌<◌, ◌≡◌, refl, sym, ap, ◌∙◌, List, [], ◌∷◌, ◌++◌, append-nil,
  append_assoc, Result, ok, err, stuck, ok-injective, length, drop, length-append, length-drop,
  drop-append_le, arith,
}
use hap_rust.Transport.Http.Scan.{Failure}
use hap_rust.Transport.Http.{
  Demuxed, Front, waiting, message, demux_front, demux_loop, demux_messages,
}
use hap_rust.Transport.Http.Stable.{demux_front-append}

-- What comes before, in front of what a demultiplexing finds.
abbrev pub prepend :
    List Demuxed → ℕ → Result Failure (List Demuxed × ℕ) → Result Failure (List Demuxed × ℕ)
prepend out offset (ok (ms, n)) = ok (out ++ ms, offset + n)
prepend out offset (err e) = err e
prepend out offset stuck = stuck

prepend_assoc :
    (out : List Demuxed) (m : Demuxed) (offset n : ℕ) (r : Result Failure (List Demuxed × ℕ))
    → prepend (out ++ m ∷ []) (offset + n) r ≡ prepend out offset (prepend ([] ++ m ∷ []) (0 + n) r)
prepend_assoc out m offset n (ok (ms, k)) = ground (arith, append_assoc out (m ∷ []) ms)
prepend_assoc out m offset n (err e) = refl
prepend_assoc out m offset n stuck = refl

-- The loop with some fuel, after its first round.
loop_step :
    (f : ℕ) (rest : List ℕ) (out : List Demuxed) (offset : ℕ) (r : Result Failure Front)
    → demux_front rest ≡ r
    → ((n : ℕ) (out' : List Demuxed) (offset' : ℕ)
        → demux_loop f (drop n rest) out' offset'
          ≡ prepend out' offset' (demux_loop f (drop n rest) [] 0))
    → demux_loop (suc f) rest out offset ≡ prepend out offset (demux_loop (suc f) rest [] 0)
unfolding demux_loop
loop_step f rest out offset (ok waiting) k ih = rw (k, demux_loop) (ground (arith, append-nil out))
loop_step f rest out offset (ok (message m n)) k ih =
    rw (k, demux_loop)
      (ih n (out ++ m ∷ []) (offset + n)
        ∙ prepend_assoc out m offset n (demux_loop f (drop n rest) [] 0)
        ∙ ap (prepend out offset) (sym (ih n ([] ++ m ∷ []) (0 + n))))
loop_step f rest out offset (err e) k ih = rw (k, demux_loop) refl
loop_step f rest out offset stuck k ih = rw (k, demux_loop) refl

demux_loop-prepend :
    (f : ℕ) (rest : List ℕ) (out : List Demuxed) (offset : ℕ)
    → demux_loop f rest out offset ≡ prepend out offset (demux_loop f rest [] 0)
unfolding demux_loop
demux_loop-prepend zero rest out offset = refl
demux_loop-prepend (suc f) rest out offset =
    loop_step f rest out offset (demux_front rest) refl (λ n. demux_loop-prepend f (drop n rest))

-- Any two fuels above the number of bytes give the same.
fuel_step :
    (f g : ℕ) (rest : List ℕ) (out : List Demuxed) (offset : ℕ) (r : Result Failure Front)
    → length rest < 2 ^ 63
    → demux_front rest ≡ r
    → ((n : ℕ) (out' : List Demuxed) (offset' : ℕ)
        → 0 < n
        → n ≤ length rest
        → demux_loop f (drop n rest) out' offset' ≡ demux_loop g (drop n rest) out' offset')
    → demux_loop (suc f) rest out offset ≡ demux_loop (suc g) rest out offset
unfolding demux_loop
fuel_step f g rest out offset (ok waiting) small k ih = rw (k, demux_loop) refl
fuel_step f g rest out offset (ok (message m n)) small k ih =
    let (_, lo, hi) =
      demux_front-append rest [] m n (omega (arith, length-append rest [], small)) k in
    rw (k, demux_loop) (ih n (out ++ m ∷ []) (offset + n) lo hi)
fuel_step f g rest out offset (err e) small k ih = rw (k, demux_loop) refl
fuel_step f g rest out offset stuck small k ih = rw (k, demux_loop) refl

demux_loop_fuel :
    (f g : ℕ) (rest : List ℕ) (out : List Demuxed) (offset : ℕ)
    → length rest < f
    → length rest < g
    → length rest < 2 ^ 63
    → demux_loop f rest out offset ≡ demux_loop g rest out offset
demux_loop_fuel zero g rest out offset h k small = absurd (omega arith)
demux_loop_fuel (suc f) zero rest out offset h k small = absurd (omega arith)
demux_loop_fuel (suc f) (suc g) rest out offset h k small =
    fuel_step f g rest out offset (demux_front rest) small refl (λ n out' offset' lo hi.
      let shorter = length-drop n rest in
      demux_loop_fuel f g (drop n rest) out' offset' (omega (arith, shorter, lo, hi, h))
        (omega (arith, shorter, lo, hi, k)) (omega (arith, shorter, small)))

drop-nil : (n : ℕ) → drop {A = ℕ} n [] ≡ []
drop-nil zero = refl
drop-nil (suc n) = refl

drop-drop : (d n : ℕ) (xs : List ℕ) → drop d (drop n xs) ≡ drop (n + d) xs
drop-drop d zero xs = let e : d ≡ 0 + d = omega arith in ap (λ t. drop t xs) e
drop-drop d (suc n) [] = drop-nil d ∙ sym (drop-nil (suc n + d))
drop-drop d (suc n) (x ∷ xs) =
    let e : suc (n + d) ≡ suc n + d = omega arith in drop-drop d n xs ∙ ap (λ t. drop t (x ∷ xs)) e

-- Where the loop stops, it goes on in the same way once more bytes are there.
abbrev Resumes :
    (rest ys : List ℕ) (out : List Demuxed) (offset : ℕ) (ms : List Demuxed) (k : ℕ) → Type 0
Resumes rest ys out offset ms k =
    (d : ℕ) × (k ≡ offset + d)
    × (demux_loop (suc (length (rest ++ ys))) (rest ++ ys) out offset
        ≡ demux_loop (suc (length (drop d rest ++ ys))) (drop d rest ++ ys) ms k)

resume_step :
    (f : ℕ) (rest ys : List ℕ) (out : List Demuxed) (offset : ℕ) (ms : List Demuxed) (k : ℕ)
    (r : Result Failure Front)
    → length (rest ++ ys) < 2 ^ 63
    → demux_front rest ≡ r
    → ((n : ℕ) (out' : List Demuxed) (offset' : ℕ)
        → 0 < n
        → n ≤ length rest
        → demux_loop f (drop n rest) out' offset' ≡ ok (ms, k)
        → Resumes (drop n rest) ys out' offset' ms k)
    → demux_loop (suc f) rest out offset ≡ ok (ms, k)
    → Resumes rest ys out offset ms k
unfolding demux_loop
resume_step f rest ys out offset ms k (ok waiting) small t ih e =
    let e' = rw (t, demux_loop) at e in
    let same : ◌≡◌ {A = List Demuxed × ℕ} (out, offset) (ms, k) = ok-injective _ _ e' in
    (
      0,
      omega (arith, ap (λ x. x.1) same),
      ap (λ x. demux_loop (suc (length (rest ++ ys))) (rest ++ ys) x.0 x.1) same,
    )
resume_step f rest ys out offset ms k (ok (message m n)) small t ih e =
    let e' = rw (t, demux_loop) at e in
    let (p, lo, hi) = demux_front-append rest ys m n small t in
    let (d, far, l) = ih n (out ++ m ∷ []) (offset + n) lo hi e' in
    let shorter = length-append (drop n rest) ys in
    let longer = length-append rest ys in
    let dropped = length-drop n rest in
    let fuel =
      demux_loop_fuel (length (rest ++ ys)) (suc (length (drop n rest ++ ys))) (drop n rest ++ ys)
        (out ++ m ∷ []) (offset + n) (omega (arith, shorter, longer, dropped, lo, hi)) (omega arith)
        (omega (arith, shorter, longer, dropped, small)) in
    (
      n + d,
      omega (arith, far),
      rw (p, demux_loop, drop-append_le n rest ys hi) (fuel ∙ l)
          ∙ ap (λ x. demux_loop (suc (length (x ++ ys))) (x ++ ys) ms k) (drop-drop d n rest),
    )
resume_step f rest ys out offset ms k (err x) small t ih e = let e' = rw (t, demux_loop) at e in cc
resume_step f rest ys out offset ms k stuck small t ih e = let e' = rw (t, demux_loop) at e in cc

demux_loop-Resumes :
    (f : ℕ) (rest ys : List ℕ) (out : List Demuxed) (offset : ℕ) (ms : List Demuxed) (k : ℕ)
    → length (rest ++ ys) < 2 ^ 63
    → demux_loop f rest out offset ≡ ok (ms, k)
    → Resumes rest ys out offset ms k
unfolding demux_loop
demux_loop-Resumes zero rest ys out offset ms k small e = cc
demux_loop-Resumes (suc f) rest ys out offset ms k small e =
    resume_step f rest ys out offset ms k (demux_front rest) small refl
      (λ n out' offset' lo hi. demux_loop-Resumes f (drop n rest) ys out' offset' ms k (
        omega (
          arith,
          length-append (drop n rest) ys,
          length-append rest ys,
          length-drop n rest,
          small,
        )))
      e

-- The messages of a stream are found alike however its bytes arrive: where the bytes so far give messages
-- and a count of used bytes, those bytes with more behind them give the same messages, and behind those
-- what the unused bytes give with the new ones. A buffer has fewer than 2 ^ 63 bytes.
pub demux_messages-append :
    (buf more : List ℕ) (ms : List Demuxed) (n : ℕ)
    → length (buf ++ more) < 2 ^ 63
    → demux_messages buf ≡ ok (ms, n)
    → demux_messages (buf ++ more) ≡ prepend ms n (demux_messages (drop n buf ++ more))
unfolding demux_messages
demux_messages-append buf more ms n small e =
    let (d, far, l) = demux_loop-Resumes (suc (length buf)) buf more [] 0 ms n small e in
    let same : d ≡ n = omega (arith, far) in
    l
    ∙ demux_loop-prepend (suc (length (drop d buf ++ more))) (drop d buf ++ more) ms n
    ∙ ap
        (λ x.
          prepend ms n (demux_loop (suc (length (drop x buf ++ more))) (drop x buf ++ more) [] 0))
        same
