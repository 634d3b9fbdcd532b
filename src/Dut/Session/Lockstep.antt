-- ===== src/Dut/Session/Lockstep.antt =====
-- The two ends of a CoAP session together: what one seals the other opens, in any order of requests,
-- responses and events.
use hap_rust.Common.{
  ℕ, ◌≤◌, ◌≡◌, refl, sym, ap, List, [], ◌∷◌, Option, none, some, Result, ok, err, stuck, length,
  All, map, arith,
}
use hap_rust.Crypto.Aead.{
  Chacha, ChachaLaws, max_message, encrypt, decrypt, chacha20poly1305_seal, chacha20poly1305_open,
}
use hap_rust.Thread.Session.{
  CoapSession, counter_nonce, wrapping_suc, seal_request, open_response, open_event,
}
use hap_rust.Dut.Hap.{nonce_counter}
use hap_rust.Dut.Session.{AccessorySession, open_request, seal_response, seal_event}

-- What crosses the link.
pub data Message : Type 0 where
  request response event : List ℕ → Message

abbrev pub payload : Message → List ℕ
payload (request m) = m
payload (response m) = m
payload (event m) = m

pub record Peers : Type 0 where
  pub controller : CoapSession
  pub accessory : AccessorySession

-- The value of a step that does not fail.
abbrev pub value : {E : Type 0} → Result E (List ℕ) → Option (List ℕ)
value (ok v) = some v
value (err e) = none
value stuck = none

-- The sealed message, where there is one, is opened at the other end.
abbrev open_sealed :
    {E S : Type 0} → Result E (List ℕ) → (List ℕ → Option (List ℕ) × S) → S → Option (List ℕ) × S
open_sealed (ok ct) k s = k ct
open_sealed (err e) k s = (none, s)
open_sealed stuck k s = (none, s)

module _ (c : Chacha) where
  -- One message, sealed at its sender and opened at its receiver.
  unfoldable pub deliver : Message → Peers → Option (List ℕ) × Peers
  deliver (request m) ps =
      let (sealed, controller) = seal_request c ps.controller m in
      open_sealed sealed
        (λ ct.
          let (opened, accessory) = open_request c ps.accessory ct in
          (value opened, record { controller = controller; accessory = accessory }))
        (record ps { controller = controller })
  deliver (response m) ps =
      let (sealed, accessory) = seal_response c ps.accessory m in
      open_sealed sealed
        (λ ct.
          let (opened, controller) = open_response c ps.controller ct in
          (value opened, record { controller = controller; accessory = accessory }))
        (record ps { accessory = accessory })
  deliver (event m) ps =
      let (sealed, accessory) = seal_event c ps.accessory m in
      open_sealed sealed
        (λ ct.
          let (opened, controller) = open_event c ps.controller ct in
          (value opened, record { controller = controller; accessory = accessory }))
        (record ps { accessory = accessory })

  unfoldable pub deliver_all : List Message → Peers → List (Option (List ℕ)) × Peers
  unfolding deliver
  deliver_all [] ps = ([], ps)
  deliver_all (m ∷ ms) ps =
      let (got, ps') = deliver m ps in let (rest, ps'') = deliver_all ms ps' in (got ∷ rest, ps'')

-- The two ends share their keys, and each counter of one is the matching counter of the other.
pub record InStep (ps : Peers) : Type 0 where
  pub read_key : ps.controller.read_key ≡ ps.accessory.read_key
  pub write_key : ps.controller.write_key ≡ ps.accessory.write_key
  pub event_key : ps.controller.event_key ≡ ps.accessory.event_key
  pub requests : ps.controller.send_ctr ≡ ps.accessory.recv_ctr
  pub responses : ps.controller.recv_ctr ≡ ps.accessory.send_ctr
  pub events : ps.controller.event_ctr ≡ ps.accessory.event_ctr

abbrev pub IsShort : Message → Type 0
IsShort m = length (payload m) ≤ max_message

module _ (c : Chacha) (laws : ChachaLaws c) where
  seals :
      (k n m : List ℕ)
      → length m ≤ max_message
      → (ct : List ℕ) × (chacha20poly1305_seal c k n [] m ≡ ok ct)
        × (chacha20poly1305_open c k n [] ct ≡ ok m)
  unfolding chacha20poly1305_seal chacha20poly1305_open encrypt decrypt
  seals k n m h =
      let (ct, e) = laws.seals k n [] m h in
      (ct, ground (arith, e), ground (arith, laws.opens k n [] m ct e))

  deliver-request :
      (m : List ℕ) (ps : Peers)
      → InStep ps
      → length m ≤ max_message
      → deliver c (request m) ps ≡ (
        some m,
        record {
          controller = record ps.controller { send_ctr = wrapping_suc ps.controller.send_ctr };
          accessory = record ps.accessory { recv_ctr = wrapping_suc ps.accessory.recv_ctr };
        },
      )
  unfolding deliver seal_request open_request counter_nonce nonce_counter
  deliver-request m ps i h =
      let (ct, e, f) = seals ps.controller.write_key (counter_nonce ps.controller.send_ctr) m h in
      let f' : chacha20poly1305_open c ps.accessory.write_key (nonce_counter ps.accessory.recv_ctr)
            [] ct
          ≡ ok m =
        rw (sym i.write_key, sym i.requests) f in
      ground (arith, e, f')

  deliver-response :
      (m : List ℕ) (ps : Peers)
      → InStep ps
      → length m ≤ max_message
      → deliver c (response m) ps ≡ (
        some m,
        record {
          controller = record ps.controller { recv_ctr = wrapping_suc ps.controller.recv_ctr };
          accessory = record ps.accessory { send_ctr = wrapping_suc ps.accessory.send_ctr };
        },
      )
  unfolding deliver seal_response open_response counter_nonce nonce_counter
  deliver-response m ps i h =
      let (ct, e, f) = seals ps.accessory.read_key (nonce_counter ps.accessory.send_ctr) m h in
      let f' : chacha20poly1305_open c ps.controller.read_key (counter_nonce ps.controller.recv_ctr)
            [] ct
          ≡ ok m =
        rw (i.read_key, i.responses) f in
      ground (arith, e, f')

  deliver-event :
      (m : List ℕ) (ps : Peers)
      → InStep ps
      → length m ≤ max_message
      → deliver c (event m) ps ≡ (
        some m,
        record {
          controller = record ps.controller { event_ctr = wrapping_suc ps.controller.event_ctr };
          accessory = record ps.accessory { event_ctr = wrapping_suc ps.accessory.event_ctr };
        },
      )
  unfolding deliver seal_event open_event counter_nonce nonce_counter
  deliver-event m ps i h =
      let (ct, e, f) = seals ps.accessory.event_key (nonce_counter ps.accessory.event_ctr) m h in
      let f' : chacha20poly1305_open c ps.controller.event_key
            (counter_nonce ps.controller.event_ctr) [] ct
          ≡ ok m =
        rw (i.event_key, i.events) f in
      ground (arith, e, f')

  deliver-InStep :
      (m : Message) (ps : Peers)
      → InStep ps
      → IsShort m
      → ((deliver c m ps).0 ≡ some (payload m)) × InStep (deliver c m ps).1
  deliver-InStep (request m) ps i h =
      rw (deliver-request m ps i h) (refl, ground (arith, ap wrapping_suc i.requests))
  deliver-InStep (response m) ps i h =
      rw (deliver-response m ps i h) (refl, ground (arith, ap wrapping_suc i.responses))
  deliver-InStep (event m) ps i h =
      rw (deliver-event m ps i h) (refl, ground (arith, ap wrapping_suc i.events))

  -- From ends in step, whatever the order of the requests, responses and events, every message that the
  -- cipher can hold arrives as it was sent, and the ends stay in step.
  pub deliver_all-InStep :
      (ms : List Message) (ps : Peers)
      → InStep ps
      → All IsShort ms
      → ((deliver_all c ms ps).0 ≡ map (λ m. some (payload m)) ms) × InStep (deliver_all c ms ps).1
  unfolding deliver_all
  deliver_all-InStep [] ps i h = (refl, i)
  deliver_all-InStep (m ∷ ms) ps i h =
      let (e, j) = deliver-InStep m ps i h.0 in
      let (f, k) = deliver_all-InStep ms (deliver c m ps).1 j h.1 in (cc, k)
