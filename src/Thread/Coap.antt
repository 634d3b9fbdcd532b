-- ===== src/Thread/Coap.antt =====
-- crates/hap-thread/src/coap.rs: routing datagrams, the exchange with retransmission, and block-wise
-- responses. A packet has what the code reads of the `coap-lite` crate's; what each wait brings, and
-- what an exchange returns, are arguments, and so is how each send of the socket ends.
pub mod Routing
pub mod Blocks
pub mod Exchange
mod Runs
use hap_rust.Common.{
  ℕ, zero, suc, ◌+◌, ◌-◌, ◌/◌, ◌%◌, List, [], ◌∷◌, ◌++◌, Option, none, some, Result, ok, err, stuck,
  Bool, true, false, ◌&&◌, not, map, ◌==◌, if◌then◌else◌,
}
use hap_rust.Crypto.PairVerify.{bytes_eq}
use hap_rust.Thread.Types.{ThreadError, coap, coap_code, session_expired}

pub data MessageType : Type 0 where
  confirmable non_confirmable acknowledgement reset : MessageType

-- The Block2 option: the number of a block, whether more follow, and the size.
pub record BlockValue : Type 0 where
  pub num : ℕ
  pub more : Bool
  pub size : ℕ

pub record Packet : Type 0 where
  pub kind : MessageType
  pub code : ℕ
  pub message_id : ℕ
  pub token : List ℕ
  pub payload : List ℕ
  pub block2 : Option BlockValue

pub record CoapResponse : Type 0 where
  pub class : ℕ
  pub detail : ℕ
  pub payload : List ℕ

abbrev pub max_transmissions : ℕ
max_transmissions = 4

abbrev pub max_blocks : ℕ
max_blocks = 1024

-- The text of the error does not repeat the code.
unfoldable pub changed_payload : CoapResponse → Result ThreadError (List ℕ)
changed_payload r =
    if r.class == 2 && r.detail == 4
    then ok r.payload
    else if r.class == 4 && r.detail == 4
    then err session_expired
    else err (coap_code "class.detail")

abbrev pub is_confirmable : MessageType → Bool
is_confirmable confirmable = true
is_confirmable non_confirmable = false
is_confirmable acknowledgement = false
is_confirmable reset = false

unfoldable pub is_event_put : Packet → Bool
is_event_put p = is_confirmable p.kind && (not (p.code == 0) && p.code / 32 == 0)

abbrev pub is_empty : Packet → Bool
is_empty p = p.code == 0

unfoldable pub split_code : Packet → ℕ × ℕ
split_code p = (p.code / 32, p.code % 32)

-- An exchange that waits, with the packets that it has been handed.
pub record Pending : Type 0 where
  pub token : List ℕ
  pub received : List Packet

-- What the reader task has done: the exchanges that wait, the events handed on, and the datagrams that it
-- acknowledged (`2.03`), by message id and token.
pub record Reader : Type 0 where
  pub pending : List Pending
  pub events : List (List ℕ)
  pub acks : List (ℕ × List ℕ)

-- `pending.get(&token)` and `sender.send(packet)`; a map has a token once.
unfoldable pub hand_over : Packet → List Pending → List Pending
hand_over p [] = []
hand_over p (w ∷ ws) =
    let rest = hand_over p ws in
    if bytes_eq w.token p.token then record w { received = w.received ++ p ∷ [] } ∷ ws else w ∷ rest

-- One turn of `reader_loop` on a datagram that decodes.
unfoldable pub route : Packet → Reader → Reader
unfolding is_event_put hand_over
route p r =
    if is_event_put p
    then record r {
      events = r.events ++ p.payload ∷ [];
      acks = r.acks ++ (p.message_id, p.token) ∷ [];
    }
    else record r { pending = hand_over p r.pending }

unfoldable pub route_all : List Packet → Reader → Reader
unfolding route
route_all [] r = r
route_all (p ∷ ps) r = route_all ps (route p r)

-- What a wait for a response brings.
pub data Wait : Type 0 where
  got : Packet → Wait
  closed elapsed : Wait

-- An exchange at its end: its result, how often it sent the request, and the message ids of the responses
-- that it acknowledged.
pub record Exchanged : Type 0 where
  pub result : Result ThreadError Packet
  pub sent : ℕ
  pub acked : List ℕ

abbrev give_up : ThreadError → (sent : ℕ) → Exchanged
give_up e sent = record { result = err e; sent = sent; acked = [] }

-- Waits that have brought nothing yet.
abbrev still_waiting : (sent : ℕ) → Exchanged
still_waiting sent = record { result = stuck; sent = sent; acked = [] }

-- `send` is how the request's send of this number ends, from 0 on, and `ack` how `send_empty_ack` ends for a
-- message id. A send that fails is not counted.
module _ (send ack : ℕ → Result ThreadError (Unit {0})) where
  abbrev pub answer_acked : Packet → (sent : ℕ) → Result ThreadError (Unit {0}) → Exchanged
  answer_acked p sent (ok done) = record { result = ok p; sent = sent; acked = p.message_id ∷ [] }
  answer_acked p sent (err e) = give_up e sent
  answer_acked p sent stuck = still_waiting sent

  unfoldable pub accept : Packet → (sent : ℕ) → Exchanged
  accept p sent =
      if is_confirmable p.kind
      then answer_acked p sent (ack p.message_id)
      else record { result = ok p; sent = sent; acked = [] }

  -- Behind an empty acknowledgement.
  unfoldable pub await_separate : (sent : ℕ) → List Wait → Exchanged
  unfolding accept
  await_separate sent [] = still_waiting sent
  await_separate sent (closed ∷ ws) = give_up (coap "CoAP reader task stopped") sent
  await_separate sent (elapsed ∷ ws) =
      give_up (coap "no separate CoAP response after the empty ACK") sent
  await_separate sent (got p ∷ ws) =
      let rest = await_separate sent ws in if is_empty p then rest else accept p sent

  -- Behind a send of the request; `again` is the next round of the loop.
  abbrev pub await_answer : (sent : ℕ) → List Wait → (again : List Wait → Exchanged) → Exchanged
  await_answer sent [] again = still_waiting sent
  await_answer sent (closed ∷ ws) again = give_up (coap "CoAP reader task stopped") sent
  await_answer sent (elapsed ∷ ws) again = again ws
  await_answer sent (got p ∷ ws) again =
      if is_empty p then await_separate sent ws else accept p sent

  abbrev pub after_send :
      Result ThreadError (Unit {0})
      → (sent : ℕ) → List Wait
      → (again : List Wait → Exchanged) → Exchanged
  after_send (ok done) sent ws again = await_answer (suc sent) ws again
  after_send (err e) sent ws again = give_up e sent
  after_send stuck sent ws again = still_waiting sent

  -- With so many transmissions left.
  unfoldable pub transmit : (left sent : ℕ) → List Wait → Exchanged
  unfolding await_separate accept
  transmit zero sent ws = give_up (coap "no CoAP response after maximum retransmissions") sent
  transmit (suc left) sent ws = after_send (send sent) sent ws (transmit left (suc sent))

  unfoldable pub exchange_inner : List Wait → Exchanged
  unfolding transmit
  exchange_inner ws = transmit max_transmissions 0 ws

-- What the code chooses of a request: its body and its Block2 option.
pub record CoapRequest : Type 0 where
  pub payload : List ℕ
  pub block2 : Option BlockValue

module _ {S : Type 0} (exchange : CoapRequest → S → Result ThreadError Packet × S)
    (new_block : (num size : ℕ) → Option BlockValue) where
  abbrev response_of : Packet → List ℕ → CoapResponse
  response_of p full =
      let (class, detail) = split_code p in
      record { class = class; detail = detail; payload = full }

  -- Behind a block: the next one where more follow, while fewer than 1024 have been fetched.
  unfoldable pub fetch_blocks :
      (left : ℕ) (size : ℕ) (p : Packet) (block : Option BlockValue) (full : List ℕ)
      → S
      → Result ThreadError CoapResponse × S
  unfolding split_code
  fetch_blocks left size p none full s = (ok (response_of p full), s)
  fetch_blocks zero size p (some block) full s = (
    if block.more
        then err (coap "too many Block2 fragments in one response")
        else ok (response_of p full),
    s,
  )
  fetch_blocks (suc left) size p (some block) full s = elim block.more [
    | false ↦ (ok (response_of p full), s)
    | true ↦ elim (new_block (block.num + 1) size) [
      | none ↦ (err (coap "invalid Block2 request"), s)
      | some next ↦
          let (r, s') = exchange (record { payload = []; block2 = some next }) s in
          elim r [
            | ok q ↦ fetch_blocks left size q q.block2 (full ++ q.payload) s'
            | err e ↦ (err e, s')
            | stuck ↦ (stuck, s')
          ]
    ]
  ]

  abbrev pub size_of : Option BlockValue → ℕ
  size_of none = 0
  size_of (some block) = block.size

  -- The first block counts as fetched.
  unfoldable pub post : (payload : List ℕ) → S → Result ThreadError CoapResponse × S
  unfolding fetch_blocks
  post payload s =
      let (r, s') = exchange (record { payload = payload; block2 = none }) s in
      elim r [
        | ok p ↦ fetch_blocks (max_blocks - 1) (size_of p.block2) p p.block2 p.payload s'
        | err e ↦ (err e, s')
        | stuck ↦ (stuck, s')
      ]
