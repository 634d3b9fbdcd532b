-- ===== src/Ble/Pdu/Exchange.antt =====
-- A request over a GATT link: what is written, and the response from however many fragments.
pub mod Secure
pub mod Writes
use Prim.Native.String.{String}
use hap_rust.Common.{
  ℕ, zero, suc, ◌+◌, ◌-◌, ◌^◌, ◌≤◌, ◌<◌, ◌≡◌, refl, sym, ap, ◌∙◌, List, [], ◌∷◌, ◌++◌, append-nil,
  append_assoc, Result, ok, ◌>>=◌, length, length-append, map, All, concat, take, take_all,
  to_le_bytes, from_le_bytes, arith, take-append,
}
use hap_rust.Common
use hap_rust.Ble.Types.{BleError, OpCode}
use hap_rust.Ble.Pdu.{
  encode_request, fragment, reassemble, declared_total, decode_response, Response, GattConnection,
  write_all, collect, receive, receive_after, decode_all_read, request,
}
use hap_rust.Ble.Pdu.Fragments.{continuation, join-continuation}

length_continuations :
    (tid : ℕ) (cs : List (List ℕ)) → length (map (continuation 0x82 tid) cs) ≡ length cs
length_continuations tid [] = refl
length_continuations tid (c ∷ cs) = ap suc (length_continuations tid cs)

-- A link that takes some fragments in order, from one state to another.
module _ {S : Type 0} (put : List ℕ → S → Result BleError (Unit {0}) × S) where
  abbrev pub Accepts : S → List (List ℕ) → S → Type 0
  Accepts s [] s' = s ≡ s'
  Accepts s (f ∷ fs) s' = (t : S) × (put f s ≡ (ok tt, t)) × Accepts t fs s'

  pub write_all-Accepts :
      (s : S) (fs : List (List ℕ)) (s' : S) → Accepts s fs s' → write_all put fs s ≡ (ok tt, s')
  unfolding write_all
  write_all-Accepts s [] s' a = ap (λ t. (ok tt, t)) a
  write_all-Accepts s (f ∷ fs) s' (t, e, a) = ground (arith, e, write_all-Accepts t fs s' a)

-- A link that delivers some fragments in order.
module _ {S : Type 0} (next : S → Result BleError (List ℕ) × S) where
  abbrev pub Delivers : S → List (List ℕ) → S → Type 0
  Delivers s [] s' = s ≡ s'
  Delivers s (f ∷ fs) s' = (t : S) × (next s ≡ (ok f, t)) × Delivers t fs s'

  collect_done :
      (fuel : ℕ) (first : List ℕ) (fs : List (List ℕ)) (s : S) (pdu : List ℕ)
      → reassemble (first ∷ fs) ≡ ok pdu
      → declared_total first ≤ length pdu
      → collect next (suc fuel) (first ∷ fs) s ≡ (ok (first ∷ fs), s)
  unfolding collect
  collect_done fuel first fs s pdu e h = ground (arith, e)

  collect_more :
      (fuel : ℕ) (first : List ℕ) (fs : List (List ℕ)) (s t : S) (pdu f : List ℕ)
      → reassemble (first ∷ fs) ≡ ok pdu
      → length pdu < declared_total first
      → length (first ∷ fs) < 64
      → next s ≡ (ok f, t)
      → collect next (suc fuel) (first ∷ fs) s ≡ collect next fuel (first ∷ (fs ++ f ∷ [])) t
  unfolding collect
  collect_more fuel first fs s t pdu f e h k d = ground (arith, e, d)

  abbrev chunk_fragment : ℕ → List ℕ → List ℕ
  chunk_fragment tid = continuation 0x82 tid

  map_snoc :
      (tid : ℕ) (ds : List (List ℕ)) (c : List ℕ) (cs : List (List ℕ))
      → map (chunk_fragment tid) (ds ++ c ∷ cs) ≡ map (chunk_fragment tid) ((ds ++ c ∷ []) ++ cs)
  map_snoc tid ds c cs = ap (map (chunk_fragment tid)) (sym (append_assoc ds (c ∷ []) cs))

  map_last :
      (tid : ℕ) (ds : List (List ℕ)) (c : List ℕ)
      → map (chunk_fragment tid) ds ++ chunk_fragment tid c ∷ []
        ≡ map (chunk_fragment tid) (ds ++ c ∷ [])
  map_last tid [] c = refl
  map_last tid (d ∷ ds) c = ap (λ t. chunk_fragment tid d ∷ t) (map_last tid ds c)

  concat_last : (ds : List (List ℕ)) (c : List ℕ) → concat (ds ++ c ∷ []) ≡ concat ds ++ c
  concat_last [] c = append-nil c
  concat_last (d ∷ ds) c = ap (λ t. d ++ t) (concat_last ds c) ∙ sym (append_assoc d (concat ds) c)

  -- `ds` are the chunks read so far, `cs` those to come.
  collect-Delivers :
      (fuel tid : ℕ) (first : List ℕ) (ds cs : List (List ℕ)) (s s' : S)
      → Delivers s (map (chunk_fragment tid) cs) s'
      → All (λ c. 0 < length c) cs
      → declared_total first ≡ length first + (length (concat ds) + length (concat cs))
      → length ds + length cs < 64
      → length cs < fuel
      → collect next fuel (first ∷ map (chunk_fragment tid) ds) s
        ≡ (ok (first ∷ map (chunk_fragment tid) (ds ++ cs)), s')
  unfolding reassemble
  collect-Delivers zero tid first ds cs s s' d full total few enough = absurd (omega arith)
  collect-Delivers (suc fuel) tid first ds [] s s' d full total few enough =
      collect_done fuel first (map (chunk_fragment tid) ds) s (first ++ concat ds)
        (join-continuation 0x82 tid first ds)
        (omega (arith, total, length-append first (concat ds)))
      ∙ rw (append-nil ds) (rw d refl)
  collect-Delivers (suc fuel) tid first ds (c ∷ cs) s s' (t, e, d) full total few enough =
      collect_more fuel first (map (chunk_fragment tid) ds) s t (first ++ concat ds)
        (chunk_fragment tid c) (join-continuation 0x82 tid first ds)
        (omega (arith, total, full.0, length-append first (concat ds), length-append c (concat cs)))
        (omega (arith, few, length_continuations tid ds)) e
      ∙ ap (λ fs. collect next fuel (first ∷ fs) t) (map_last tid ds c)
      ∙ collect-Delivers fuel tid first (ds ++ c ∷ []) cs t s' d full.1
          (omega (
            arith,
            total,
            ap length (concat_last ds c),
            length-append (concat ds) c,
            length-append c (concat cs),
          ))
          (omega (arith, few, length-append ds (c ∷ []))) (omega arith)
      ∙ ap (λ fs. (ok (first ∷ fs), s')) (sym (map_snoc tid ds c cs))

  receive_step :
      (s t s' : S) (first pdu : List ℕ) (fs : List (List ℕ))
      → next s ≡ (ok first, t)
      → collect next 65 (first ∷ []) t ≡ (ok fs, s')
      → reassemble fs ≡ ok pdu
      → receive next s ≡ (decode_response pdu, s')
  unfolding receive receive_after decode_all_read
  receive_step s t s' first pdu fs e d r =
      ap (receive_after next) e
      ∙ ap (decode_all_read next) d
      ∙ ap (λ x. (x >>= decode_response, s')) r

  -- A response that comes as a first fragment and some continuations is read whole.
  pub receive-Delivers :
      (tid : ℕ) (first : List ℕ) (cs : List (List ℕ)) (s s' : S)
      → Delivers s (first ∷ map (chunk_fragment tid) cs) s'
      → All (λ c. 0 < length c) cs
      → declared_total first ≡ length first + length (concat cs)
      → length cs < 64
      → receive next s ≡ (decode_response (first ++ concat cs), s')
  unfolding reassemble
  receive-Delivers tid first cs s s' (t, e, d) full total few =
      receive_step s t s' first (first ++ concat cs) (first ∷ map (chunk_fragment tid) cs) e
        (collect-Delivers 65 tid first [] cs t s' d full (omega (arith, total)) (omega arith)
          (omega arith))
        (join-continuation 0x82 tid first cs)

-- What an accessory puts in front of a body: the header and the body's length.
abbrev pub response_header : (control tid status len : ℕ) → List ℕ
response_header control tid status len = control ∷ tid ∷ status ∷ to_le_bytes 2 len

length_header : (control tid status len : ℕ) → length (response_header control tid status len) ≡ 5
length_header control tid status len =
    omega (arith, ap (λ n. 3 + n) (Common.length-to_le_bytes 2 len))

pub decode_response_whole :
    (control tid status : ℕ) (body : List ℕ)
    → length body < 2 ^ 16
    → decode_response (response_header control tid status (length body) ++ body)
      ≡ ok (record { tid = tid; status = status; body = body })
unfolding decode_response to_le_bytes
decode_response_whole control tid status body h =
    let len = Common.from_le_bytes-to_le_bytes 2 (length body) h in
    ground (arith, len, take_all (length body) body (omega arith))

pub declared_total_header :
    (control tid status len : ℕ) (rest : List ℕ)
    → len < 2 ^ 16
    → declared_total (response_header control tid status len ++ rest) ≡ 5 + len
unfolding declared_total to_le_bytes
declared_total_header control tid status len rest h =
    let e = Common.from_le_bytes-to_le_bytes 2 len h in omega (arith, e)

-- The fragments of a response whose body comes as `b0`, then `cs`.
abbrev pub response_fragments : (control tid status : ℕ) → List ℕ → List (List ℕ) → List (List ℕ)
response_fragments control tid status b0 cs =
    (response_header control tid status (length (b0 ++ concat cs)) ++ b0)
    ∷ map (continuation 0x82 tid) cs

pub length-response_fragments :
    (control tid status : ℕ) (b0 : List ℕ) (cs : List (List ℕ))
    → length (response_fragments control tid status b0 cs) ≡ suc (length cs)
length-response_fragments control tid status b0 cs = ap suc (length_continuations tid cs)

pub receive-response :
    {S : Type 0} (next : S → Result BleError (List ℕ) × S) (control tid status : ℕ) (b0 : List ℕ)
    (cs : List (List ℕ)) (s s' : S)
    → length (b0 ++ concat cs) < 2 ^ 16
    → All (λ c. 0 < length c) cs
    → length cs < 64
    → Delivers next s (response_fragments control tid status b0 cs) s'
    → receive next s ≡ (ok (record { tid = tid; status = status; body = b0 ++ concat cs }), s')
unfolding to_le_bytes
receive-response next control tid status b0 cs s s' fits full few d =
    receive-Delivers next tid (response_header control tid status (length (b0 ++ concat cs)) ++ b0)
      cs s s' d full
      (omega (
        arith,
        declared_total_header control tid status (length (b0 ++ concat cs)) b0 fits,
        length-append b0 (concat cs),
        length-append (response_header control tid status (length (b0 ++ concat cs))) b0,
        length_header control tid status (length (b0 ++ concat cs)),
      ))
      few
    ∙ ap (λ r. (r, s')) (decode_response_whole control tid status (b0 ++ concat cs) fits)

module _ {S : Type 0} (gatt : GattConnection S) (char_uuid : String) where
  request_step :
      (op : OpCode) (tid iid : ℕ) (body : List ℕ) (n : ℕ) (s t : S)
      → write_all (gatt.write char_uuid) (fragment (encode_request op tid iid body) n) s
        ≡ (ok tt, t)
      → request gatt char_uuid op tid iid body n s ≡ receive (gatt.read char_uuid) t
  unfolding request
  request_step op tid iid body n s t e = ground (arith, e)

  -- Over a link that takes the fragments of the request and then delivers a response in at most 64
  -- fragments, cut anywhere in its body into pieces that are not empty, `request` returns the
  -- response's transaction id, status and whole body.
  pub request-response :
      (op : OpCode) (tid iid : ℕ) (body : List ℕ) (n control tid' status : ℕ) (b0 : List ℕ)
      (cs : List (List ℕ)) (s t s' : S)
      → length (b0 ++ concat cs) < 2 ^ 16
      → All (λ c. 0 < length c) cs
      → length cs < 64
      → Accepts (gatt.write char_uuid) s (fragment (encode_request op tid iid body) n) t
      → Delivers (gatt.read char_uuid) t (response_fragments control tid' status b0 cs) s'
      → request gatt char_uuid op tid iid body n s
        ≡ (ok (record { tid = tid'; status = status; body = b0 ++ concat cs }), s')
  request-response op tid iid body n control tid' status b0 cs s t s' fits full few a d =
      request_step op tid iid body n s t (
        write_all-Accepts (gatt.write char_uuid) s (fragment (encode_request op tid iid body) n) t
          a)
      ∙ receive-response (gatt.read char_uuid) control tid' status b0 cs t s' fits full few d
