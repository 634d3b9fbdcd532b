-- ===== src/Ble/Runs.antt =====
-- Tests and witnesses of the Bluetooth transport, over a link that is a pair of queues.
use Prim.Native.String.{String}
use hap_rust.Common.{
  ℕ, ◌≤◌, ◌≡◌, ◌≢◌, stuck, refl, List, [], ◌∷◌, ◌++◌, Result, ok, err, length, All, All-append,
  chunks, replicate, arith, to_le_bytes,
}
use hap_rust.Crypto.Aead.{plain_chacha, plain_chacha-laws}
use hap_rust.Ble.Types.{BleError, disconnected, characteristic_read}
use hap_rust.Ble.Session.{BleSession, new}
use hap_rust.Ble.Pdu.{
  GattConnection, receive, request, request_secure, encode_request, fragment, reassemble,
  continuations,
}
use hap_rust.Ble.Pdu.Termination.{receive-ne-stuck}
use hap_rust.Ble.Pdu.Fragments.{reassemble-fragment}
use hap_rust.Ble.Pdu.Exchange.{request-response}
use hap_rust.Ble.Pdu.Exchange.Secure.{request_secure-response}
use hap_rust.Ble.Pdu.Exchange.Writes.{request_secure_writes}

abbrev Queues : Type 0
Queues = List (List ℕ) × List (List ℕ)

abbrev put_last : String → List ℕ → Queues → Result BleError (Unit {0}) × Queues
put_last uuid f (inbox, outbox) = (ok tt, (inbox, outbox ++ f ∷ []))

abbrev take_first : String → Queues → Result BleError (List ℕ) × Queues
take_first uuid ([], outbox) = (err disconnected, ([], outbox))
take_first uuid (f ∷ inbox, outbox) = (ok f, (inbox, outbox))

abbrev queues : GattConnection Queues
queues = record { write = put_last; read = take_first }

abbrev read_request : List (List ℕ)
read_request =
    (0x00 ∷ 0x03 ∷ 0x07 ∷ []) ∷ (0x80 ∷ 0x07 ∷ 0x10 ∷ []) ∷ (0x80 ∷ 0x07 ∷ 0x00 ∷ []) ∷ []

abbrev answer : List (List ℕ)
answer = (0x02 ∷ 7 ∷ 0 ∷ 3 ∷ 0 ∷ 1 ∷ []) ∷ (0x82 ∷ 7 ∷ 1 ∷ 9 ∷ []) ∷ []

reassemble-fragment_run :
    reassemble (fragment (0 ∷ 2 ∷ 7 ∷ 1 ∷ 2 ∷ 3 ∷ 4 ∷ 5 ∷ []) 5)
    ≡ ok (0 ∷ 2 ∷ 7 ∷ 1 ∷ 2 ∷ 3 ∷ 4 ∷ 5 ∷ [])
reassemble-fragment_run = reassemble-fragment (0 ∷ 2 ∷ 7 ∷ 1 ∷ 2 ∷ 3 ∷ 4 ∷ 5 ∷ []) 5

request-response_run :
    request queues "char" characteristic_read 7 16 [] 3 (answer, [])
    ≡ (ok (record { tid = 7; status = 0; body = 1 ∷ 1 ∷ 9 ∷ [] }), ([], read_request))
unfolding encode_request fragment continuations to_le_bytes chunks
request-response_run =
    request-response queues "char" characteristic_read 7 16 [] 3 0x02 7 0 (1 ∷ [])
      ((1 ∷ 9 ∷ []) ∷ []) (answer, []) (answer, read_request) ([], read_request) (omega arith)
      (omega arith, tt) (omega arith)
      (
        (answer, (0x00 ∷ 0x03 ∷ 0x07 ∷ []) ∷ []),
        refl,
        (
          (answer, (0x00 ∷ 0x03 ∷ 0x07 ∷ []) ∷ (0x80 ∷ 0x07 ∷ 0x10 ∷ []) ∷ []),
          refl,
          ((answer, read_request), refl, refl),
        ),
      )
      (((0x82 ∷ 7 ∷ 1 ∷ 9 ∷ []) ∷ [], read_request), refl, (([], read_request), refl, refl))

abbrev tag : List ℕ
tag = replicate 16 0

abbrev sealed_request : List (List ℕ)
sealed_request = (0 ∷ 3 ∷ 7 ∷ 16 ∷ 0 ∷ tag) ∷ []

abbrev sealed_answer : List (List ℕ)
sealed_answer = (0x02 ∷ 7 ∷ 0 ∷ 3 ∷ 0 ∷ 1 ∷ tag) ∷ (0x82 ∷ 7 ∷ 1 ∷ 9 ∷ tag) ∷ []

abbrev session : (send recv : ℕ) → BleSession
session n m = record { read_key = 5 ∷ []; write_key = 6 ∷ []; send_counter = n; recv_counter = m }

request_secure-response_example :
    request_secure queues "char" plain_chacha characteristic_read 7 16 [] 100
      (session 2 4, (sealed_answer, []))
    ≡ (
      ok (record { tid = 7; status = 0; body = 1 ∷ 1 ∷ 9 ∷ [] }),
      (session 3 6, ([], sealed_request)),
    )
unfolding encode_request fragment continuations to_le_bytes chunks
request_secure-response_example =
    request_secure-response queues "char" plain_chacha (5 ∷ []) (6 ∷ []) characteristic_read 7 16 []
      100 2 4 0x02 7 0 (1 ∷ []) ((1 ∷ 9 ∷ []) ∷ []) sealed_request sealed_answer (sealed_answer, [])
      (sealed_answer, sealed_request) ([], sealed_request) plain_chacha-laws (omega arith)
      (omega arith, tt) (omega arith) (omega arith) (omega arith) (refl, tt)
      ((sealed_answer, sealed_request), refl, refl) (refl, (refl, tt))
      (((0x82 ∷ 7 ∷ 1 ∷ 9 ∷ tag) ∷ [], sealed_request), refl, (([], sealed_request), refl, refl))

-- Everything that was written has 21 bytes at most.
abbrev ShortWrites : Queues → Type 0
ShortWrites (inbox, outbox) = All (λ ct. length ct ≤ 21) outbox

put_last-ShortWrites :
    (bytes : List ℕ) (t : Queues)
    → length bytes ≤ 21
    → ShortWrites t
    → ShortWrites (put_last "char" bytes t).1
put_last-ShortWrites bytes (inbox, outbox) short h =
    All-append (λ ct. length ct ≤ 21) outbox (bytes ∷ []) h (short, tt)

take_first-ShortWrites : (t : Queues) → ShortWrites t → ShortWrites (take_first "char" t).1
take_first-ShortWrites ([], outbox) h = h
take_first-ShortWrites (f ∷ inbox, outbox) h = h

request_secure_writes_example :
    ShortWrites
      (request_secure queues "char" plain_chacha characteristic_read 7 16
        (replicate 60 1)
        21
        (new (5 ∷ []) (6 ∷ []), ([], []))).1.1
request_secure_writes_example =
    request_secure_writes queues "char" plain_chacha plain_chacha-laws ShortWrites
      characteristic_read 7 16 (replicate 60 1) 21 (new (5 ∷ []) (6 ∷ [])) ([], [])
      put_last-ShortWrites take_first-ShortWrites tt

take_first_answers : (s : Queues) → (take_first "char" s).0 ≢ stuck
take_first_answers ([], outbox) e = cc
take_first_answers (f ∷ inbox, outbox) e = cc

receive-ne-stuck_run : (receive (take_first "char") (answer, [])).0 ≢ stuck
receive-ne-stuck_run = receive-ne-stuck (take_first "char") take_first_answers (answer, [])
