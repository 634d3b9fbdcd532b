-- ===== src/Thread/Coap/Runs.antt =====
-- Concrete datagrams and exchanges.
use hap_rust.Common.{
  ℕ, ◌≡◌, refl, List, [], ◌∷◌, none, some, Result, ok, err, ◌==◌, if◌then◌else◌, false, arith,
}
use hap_rust.Thread.Types.{ThreadError, session_expired}
use hap_rust.Thread.Coap.{Packet, confirmable, acknowledgement, Reader, route, route_all, post}
use hap_rust.Thread.Coap.Routing.{IsRouted, route_all-IsRouted, route_empty_ack}
use hap_rust.Thread.Coap.Blocks.{serve, changed, post_fetches}

abbrev answer : Packet
answer = record {
  kind = confirmable;
  code = 68;
  message_id = 9;
  token = 0 ∷ 1 ∷ [];
  payload = 5 ∷ [];
  block2 = none;
}

-- A PUT, with code 0.03.
abbrev event_put : Packet
event_put = record {
  kind = confirmable;
  code = 3;
  message_id = 10;
  token = 7 ∷ [];
  payload = 6 ∷ [];
  block2 = none;
}

abbrev empty_ack : Packet
empty_ack = record {
  kind = acknowledgement;
  code = 0;
  message_id = 8;
  token = [];
  payload = [];
  block2 = none;
}

abbrev reader : Reader
reader = record {
  pending =
      record { token = 0 ∷ 2 ∷ []; received = [] }
      ∷ record { token = 0 ∷ 1 ∷ []; received = [] }
      ∷ [];
  events = [];
  acks = [];
}

routed_run :
    (route_all (event_put ∷ answer ∷ empty_ack ∷ []) reader).pending
    ≡ record { token = 0 ∷ 2 ∷ []; received = [] }
      ∷ record { token = 0 ∷ 1 ∷ []; received = answer ∷ [] }
      ∷ []
unfolding route_all
routed_run = refl

route_all-IsRouted_example :
    IsRouted
      (0 ∷ 1 ∷ [])
      (event_put ∷ answer ∷ empty_ack ∷ [])
      reader
      (route_all (event_put ∷ answer ∷ empty_ack ∷ []) reader)
route_all-IsRouted_example =
    route_all-IsRouted (0 ∷ 1 ∷ []) (event_put ∷ answer ∷ empty_ack ∷ []) reader refl

route_empty_ack_example : route empty_ack reader ≡ reader
route_empty_ack_example = route_empty_ack empty_ack reader refl refl (omega arith)

abbrev blocks : List (List ℕ)
blocks = (2 ∷ []) ∷ (3 ∷ []) ∷ []

post_fetches_example :
    post
      (serve ((1 ∷ []) ∷ blocks) 64)
      (λ num size. some (record { num = num; more = false; size = size }))
      []
      0
    ≡ (ok (changed ((1 ∷ []) ∷ blocks) 64 (1 ∷ 2 ∷ 3 ∷ [])), 3)
post_fetches_example =
    post_fetches (1 ∷ []) blocks 64
      (λ num size. some (record { num = num; more = false; size = size })) [] (λ num h. refl)
      (omega arith)

abbrev all_sent : ℕ → Result ThreadError (Unit {0})
all_sent n = ok tt

-- The acknowledgement of message 99 cannot be sent.
abbrev but_one : ℕ → Result ThreadError (Unit {0})
but_one n = if n == 99 then err session_expired else ok tt

abbrev separate : Packet
separate = record answer { kind = confirmable; message_id = 5 }

abbrev unacked : Packet
unacked = record answer { kind = confirmable; message_id = 99 }
