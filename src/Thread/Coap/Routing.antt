-- ===== src/Thread/Coap/Routing.antt =====
-- The reader task gives each exchange the packets of its token, and the watcher the events; an empty
-- acknowledgement has no token, so it reaches nobody.
use hap_rust.Common.{
  ℕ, ◌≡◌, refl, sym, ap, ◌∙◌, List, [], ◌∷◌, ◌++◌, append-nil, append_assoc, Bool, true, false,
  ◌&&◌, ◌||◌, not, map, All, length, arith, Bool-cases, if◌then◌else◌, inl, inr,
}
use mathlib.Core.Path.{subst}
use hap_rust.Crypto.PairVerify.{bytes_eq}
use hap_rust.Crypto.PairVerify.Safety.{bytes_eq→≡}
use hap_rust.Crypto.PairVerify.Handshake.{bytes_eq_refl}
use hap_rust.Thread.Coap.{Packet, Pending, Reader, is_event_put, hand_over, route, route_all}

abbrev pub keep {ℓ} : {A : Type ℓ} → (A → Bool) → List A → List A
keep f [] = []
keep f (x ∷ xs) = if f x then x ∷ keep f xs else keep f xs

-- What the exchange of a token has been handed, and whether there is one.
abbrev pub received_by : List ℕ → List Pending → List Packet
received_by token [] = []
received_by token (w ∷ ws) = if bytes_eq w.token token then w.received else received_by token ws

abbrev pub is_waiting : List ℕ → List Pending → Bool
is_waiting token [] = false
is_waiting token (w ∷ ws) = bytes_eq w.token token || is_waiting token ws

abbrev pub is_response_to : List ℕ → Packet → Bool
is_response_to token p = not (is_event_put p) && bytes_eq token p.token

is_waiting-hand_over :
    (token : List ℕ) (p : Packet) (ws : List Pending)
    → is_waiting token (hand_over p ws) ≡ is_waiting token ws
unfolding hand_over
is_waiting-hand_over token p [] = refl
is_waiting-hand_over token p (w ∷ ws) = elim (Bool-cases (bytes_eq w.token p.token)) [
  | inl t ↦ rw t refl
  | inr f ↦ rw f (ap (λ b. bytes_eq w.token token || b) (is_waiting-hand_over token p ws))
]

-- Two tokens that a third equals, or tells apart.
bytes_eq_apart :
    (a b c : List ℕ) → bytes_eq a b ≡ true → bytes_eq a c ≡ false → bytes_eq c b ≡ false
bytes_eq_apart a b c e f = elim (Bool-cases (bytes_eq c b)) [
  | inl t ↦
      let same : a ≡ c = bytes_eq→≡ a b e ∙ sym (bytes_eq→≡ c b t) in
      let e' : bytes_eq a c ≡ true = subst (λ x. bytes_eq a x ≡ true) same (bytes_eq_refl a) in cc
  | inr g ↦ g
]

received_by-hand_over :
    (token : List ℕ) (p : Packet) (ws : List Pending)
    → is_waiting token ws ≡ true
    → received_by token (hand_over p ws)
      ≡ (if bytes_eq token p.token then received_by token ws ++ p ∷ [] else received_by token ws)
unfolding hand_over
received_by-hand_over token p [] h = cc
received_by-hand_over token p (w ∷ ws) h = elim (Bool-cases (bytes_eq w.token token)) [
  | inl t ↦
      let same = bytes_eq→≡ w.token token t in
      elim (Bool-cases (bytes_eq token p.token)) [
        | inl u ↦ ground (arith, t, u, same, subst (λ x. bytes_eq x p.token ≡ true) (sym same) u)
        | inr g ↦ ground (arith, t, g, same, subst (λ x. bytes_eq x p.token ≡ false) (sym same) g)
      ]
  | inr f ↦
      let ih = received_by-hand_over token p ws (rw f at h) in
      elim (Bool-cases (bytes_eq w.token p.token)) [
        | inl u ↦ ground (arith, f, u, bytes_eq_apart w.token p.token token u f)
        | inr g ↦ ground (arith, f, g, ih)
      ]
]

-- What the datagrams add to an exchange, to the events and to the acknowledgements.
pub record IsRouted (token : List ℕ) (ps : List Packet) (before after : Reader) : Type 0 where
  pub responses :
      received_by token after.pending
      ≡ received_by token before.pending ++ keep (is_response_to token) ps
  pub events : after.events ≡ before.events ++ map (λ p. p.payload) (keep is_event_put ps)
  pub acks : after.acks ≡ before.acks ++ map (λ p. (p.message_id, p.token)) (keep is_event_put ps)
  pub waiting : is_waiting token after.pending ≡ true

route-IsRouted :
    (token : List ℕ) (p : Packet) (r : Reader)
    → is_waiting token r.pending ≡ true
    → IsRouted token (p ∷ []) r (route p r)
unfolding route
route-IsRouted token p r h = elim (Bool-cases (is_event_put p)) [
  | inl t ↦ rw t (record {
    responses = rw t (sym (append-nil (received_by token r.pending)));
    events = rw t refl;
    acks = rw t refl;
    waiting = h;
  })
  | inr f ↦ rw f (record {
    responses = elim (Bool-cases (bytes_eq token p.token)) [
      | inl u ↦ ground (arith, f, u, received_by-hand_over token p r.pending h)
      | inr g ↦ ground (
        arith,
        f,
        g,
        received_by-hand_over token p r.pending h,
        append-nil (received_by token r.pending),
      )
    ];
    events = rw f (sym (append-nil r.events));
    acks = rw f (sym (append-nil r.acks));
    waiting = is_waiting-hand_over token p r.pending ∙ h;
  })
]

keep-append :
    (f : Packet → Bool) (p : Packet) (ps : List Packet)
    → keep f (p ∷ []) ++ keep f ps ≡ keep f (p ∷ ps)
keep-append f p ps = elim (Bool-cases (f p)) [ inl t ↦ rw t refl | inr g ↦ rw g refl ]

kept_map :
    {B : Type 0} (f : Packet → Bool) (g : Packet → B) (p : Packet) (ps : List Packet)
    → map g (keep f (p ∷ [])) ++ map g (keep f ps) ≡ map g (keep f (p ∷ ps))
kept_map f g p ps = elim (Bool-cases (f p)) [ inl t ↦ rw t refl | inr u ↦ rw u refl ]

-- Whatever datagrams arrive, in whatever order: an exchange that waits is handed exactly the packets of its
-- token that are no events, the watcher exactly the payloads of the events, both in the order of their
-- arrival, and each event is acknowledged once.
pub route_all-IsRouted :
    (token : List ℕ) (ps : List Packet) (r : Reader)
    → is_waiting token r.pending ≡ true
    → IsRouted token ps r (route_all ps r)
unfolding route_all
route_all-IsRouted token [] r h = record {
  responses = sym (append-nil (received_by token r.pending));
  events = sym (append-nil r.events);
  acks = sym (append-nil r.acks);
  waiting = h;
}
route_all-IsRouted token (p ∷ ps) r h =
    let i = route-IsRouted token p r h in
    let j = route_all-IsRouted token ps (route p r) i.waiting in
    record {
      responses =
          j.responses
          ∙ ap (λ x. x ++ keep (is_response_to token) ps) i.responses
          ∙ append_assoc (received_by token r.pending) (keep (is_response_to token) (p ∷ []))
              (keep (is_response_to token) ps)
          ∙ ap (λ x. received_by token r.pending ++ x) (keep-append (is_response_to token) p ps);
      events =
          j.events
          ∙ ap (λ x. x ++ map (λ q. q.payload) (keep is_event_put ps)) i.events
          ∙ append_assoc r.events _ _
          ∙ ap (λ x. r.events ++ x) (kept_map is_event_put (λ q. q.payload) p ps);
      acks =
          j.acks
          ∙ ap (λ x. x ++ map (λ q. (q.message_id, q.token)) (keep is_event_put ps)) i.acks
          ∙ append_assoc r.acks _ _
          ∙ ap (λ x. r.acks ++ x) (kept_map is_event_put (λ q. (q.message_id, q.token)) p ps);
      waiting = j.waiting;
    }

dropped : (p : Packet) (ws : List Pending) → is_waiting p.token ws ≡ false → hand_over p ws ≡ ws
unfolding hand_over
dropped p [] h = refl
dropped p (w ∷ ws) h = ground (arith, h, dropped p ws)

two_bytes : (token : List ℕ) → length token ≡ 2 → bytes_eq token [] ≡ false
two_bytes [] h = absurd (omega arith)
two_bytes (b ∷ bs) h = refl

no_token : (ws : List Pending) → All (λ w. length w.token ≡ 2) ws → is_waiting [] ws ≡ false
no_token [] h = refl
no_token (w ∷ ws) h = rw (two_bytes w.token h.0) (no_token ws h.1)

-- An empty acknowledgement, which has code 0.00 and no token, changes nothing: no exchange is handed it,
-- since the tokens that `build_post` and `post` choose have two bytes.
pub route_empty_ack :
    (p : Packet) (r : Reader)
    → p.code ≡ 0
    → p.token ≡ []
    → All (λ w. length w.token ≡ 2) r.pending
    → route p r ≡ r
unfolding route is_event_put
route_empty_ack p r empty none_there two =
    let response : is_event_put p ≡ false = ground (arith, empty) in
    let lost =
      subst (λ x. is_waiting x r.pending ≡ false) (sym none_there) (no_token r.pending two) in
    rw (response, route) (ap (λ ws. record r { pending = ws }) (dropped p r.pending lost))
