-- ===== src/Crypto/Runs.antt =====
-- Witnesses of the pairing cryptography, with primitives that are simple functions.
use hap_rust.Common.{
  arith, ℕ, ◌≡◌, refl, List, [], ◌∷◌, ◌++◌, some, ok, replicate, chunks, to_le_bytes, from_le_bytes,
}
use mathlib.Core.Path.{subst}
use hap_rust.Crypto.Plain.{plain, plain-laws, me, small, small-laws}
use hap_rust.Tlv8.Map
use hap_rust.Tlv8.Reader
use hap_rust.Tlv8.Map.{get_u8, get_uint}
use hap_rust.Tlv8.Writer.{push, push_u8}
use hap_rust.Crypto.Srp.{
  SrpGroup, SrpClient, SrpServer, new_server, server_session_key, verify_m1_prove_m2,
  client_proof_m1, verify_m2, with_private, premaster, compute_v, compute_b, compute_k, compute_x,
  compute_u, client_session_key,
}
use hap_rust.Crypto.Srp.Agreement.{server_session_key_agrees, proofs_accepted}
use hap_rust.Crypto.Primitives.{from_secret, hkdf_sha512}
use hap_rust.Crypto.PairVerify.Types.{SessionKeys, send, done, PairVerifyClient, await_m4, finished}
use hap_rust.Crypto.PairVerify.{
  handle, start, new_with_ephemeral, m2_signed, m3_signed, session_keys, derive_key, check_error,
  expect_state, required, to_array,
}
use hap_rust.Crypto.PairVerify.Safety.{
  Authenticated, Driven, created, started, handled, handle-Authenticated,
}
use hap_rust.Crypto.PairVerify.Handshake.{
  sub_tlv, accessory_m2, m3_message, accessory_m4, waiting, stored, common_secret, handle_agrees,
}

abbrev aid : List ℕ
aid = 65 ∷ 66 ∷ []

abbrev tagged : List ℕ → List ℕ
tagged m = m ++ replicate 16 0

abbrev encrypted : List ℕ
encrypted = tagged (sub_tlv plain [] aid (m2_signed plain (replicate 32 1) aid (replicate 32 1)))

abbrev sealed : List ℕ
sealed =
    tagged (
      sub_tlv plain (9 ∷ []) (77 ∷ [])
        (m3_signed plain (replicate 32 1) (77 ∷ []) (replicate 32 1)))

handle_agrees_run :
    (c2 c3 : PairVerifyClient) × (keys : SessionKeys) × (handle plain
        (waiting plain plain-laws me (stored plain plain-laws aid []) [])
        (accessory_m2 plain (replicate 32 1) encrypted)
      ≡ (ok (send (m3_message plain plain-laws sealed)), c2))
    × (handle plain c2 (accessory_m4 plain plain-laws) ≡ (ok (done keys), c3))
    × (session_keys plain (common_secret plain plain-laws [] []) ≡ ok keys)
unfolding derive_key hkdf_sha512
handle_agrees_run =
    handle_agrees plain plain-laws me aid [] [] [] (replicate 32 7) encrypted sealed refl refl refl

abbrev m2 : List ℕ
m2 = accessory_m2 plain (replicate 32 1) encrypted

-- The client after M2, and after M4 with its keys.
abbrev after_two : PairVerifyClient
after_two = record {
  controller_id = 77 ∷ [];
  signing = 9 ∷ [];
  accessory = stored plain plain-laws aid [];
  ephemeral = record { secret = []; public_key = replicate 32 1 };
  shared_secret = some (replicate 32 2);
  state = await_m4;
}

abbrev some_keys : SessionKeys
some_keys = record { read_key = replicate 32 7; write_key = replicate 32 7 }

second_message_run :
    (handle plain (waiting plain plain-laws me (stored plain plain-laws aid []) []) m2).1
    ≡ after_two
unfolding handle start Map.parse Reader.parse push chunks push_u8 to_le_bytes check_error Map.get
    expect_state get_u8 get_uint from_le_bytes required to_array new_with_ephemeral
second_message_run = refl

handle-Authenticated_example :
    (after_two.state ≡ await_m4)
    × (shared : List ℕ) × Authenticated plain
        (stored plain plain-laws aid [])
        (from_secret plain [])
        shared
    × (session_keys plain shared ≡ ok some_keys)
unfolding handle Map.parse Reader.parse push chunks push_u8 to_le_bytes check_error Map.get
    expect_state get_u8 get_uint from_le_bytes
handle-Authenticated_example =
    handle-Authenticated plain me (stored plain plain-laws aid []) [] after_two
      (record after_two { state = finished }) (accessory_m4 plain plain-laws) some_keys
      (subst (λ c. Driven plain (new_with_ephemeral plain me (stored plain plain-laws aid []) []) c)
        second_message_run (handled (started created) m2))
      refl

abbrev group_23 : SrpGroup
group_23 = record { n = 23; g = 5; n_len = 1 }

abbrev client_3 : SrpClient
client_3 = record { group = group_23; username = 80 ∷ []; a = 3; a_pub = 10 }

abbrev server_4 : SrpServer
server_4 = new_server small group_23 (80 ∷ []) (49 ∷ []) (115 ∷ []) 4

server_session_key_agrees_example :
    server_session_key small server_4 client_3.a_pub ≡ ok (client_session_key small client_3 9)
unfolding with_private premaster new_server compute_v compute_b compute_k compute_x compute_u
server_session_key_agrees_example =
    server_session_key_agrees small small-laws group_23 (80 ∷ []) (49 ∷ []) (115 ∷ []) 3 4 9
      client_3 (omega arith) refl refl

proofs_accepted_example :
    (m2 : List ℕ) × (verify_m1_prove_m2 small server_4 client_3.a_pub
        (7 ∷ [])
        (client_proof_m1 small client_3 (115 ∷ []) server_4.b_pub (7 ∷ []))
      ≡ ok m2)
    × (verify_m2 small client_3
          (client_proof_m1 small client_3 (115 ∷ []) server_4.b_pub (7 ∷ []))
          (7 ∷ [])
          m2
        ≡ ok tt)
unfolding with_private
proofs_accepted_example =
    proofs_accepted small small-laws group_23 (80 ∷ []) (49 ∷ []) (115 ∷ []) (7 ∷ []) 3 4 client_3
      refl
