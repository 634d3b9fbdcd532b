-- ===== src/Dut/Runs.antt =====
-- Concrete runs of the software accessory against the controller's side.
use hap_rust.Common.{
  ℕ, ◌≡◌, refl, List, [], ◌∷◌, ◌++◌, some, replicate, map, chunks, to_le_bytes, from_le_bytes,
  arith, is_utf8,
}
use hap_rust.Tlv8.Map
use hap_rust.Tlv8.Reader
use hap_rust.Tlv8.Map.{get_u8, get_uint}
use hap_rust.Tlv8.Writer.{push, push_u8}
use hap_rust.Crypto.Types.{
  tlv_identifier, tlv_public_key, tlv_proof, tlv_encrypted_data, tlv_state, tlv_signature,
}
use hap_rust.Crypto.Aead.{plain_chacha, plain_chacha-laws}
use hap_rust.Crypto.Plain.{plain, plain-laws, me, small}
use hap_rust.Crypto.Primitives.{ControllerKeypair, hkdf_sha512}
use hap_rust.Crypto.Srp.{
  SrpServer, new_server, server_session_key, compute_v, compute_b, compute_k, compute_x, compute_u,
}
use hap_rust.Crypto.PairVerify.{m2_signed, m3_signed, derive_key}
use hap_rust.Crypto.PairVerify.Handshake.{sub_tlv, m3_message}
use hap_rust.Dut.Session.{AccessorySession, new}
use hap_rust.Dut.Session.Lockstep.{
  Message, request, response, event, payload, Peers, deliver_all, InStep, deliver_all-InStep,
}
use hap_rust.Dut.Verify.{VerifyInProgress, handle_m3, expect_state}
use hap_rust.Dut.Verify.Safety.{IsAuthentic, IsKeyed, handle_m3-IsAuthentic}
use hap_rust.Dut.Agreement.Sessions.{IsVerified, verifies-IsVerified}
use hap_rust.Dut.Setup.{ControllerPairing, handle_setup_m3, handle_setup_m5}
use hap_rust.Dut.Setup.Safety.{IsProved, IsSigned, handle_setup_m5_enrols}

abbrev peers : Peers
peers = record {
  controller = record {
    read_key = 1 ∷ [];
    write_key = 2 ∷ [];
    event_key = 3 ∷ [];
    send_ctr = 7;
    recv_ctr = 6;
    event_ctr = 5;
  };
  accessory = record {
    read_key = 1 ∷ [];
    write_key = 2 ∷ [];
    event_key = 3 ∷ [];
    recv_ctr = 7;
    send_ctr = 6;
    event_ctr = 5;
  };
}

peers-InStep : InStep peers
peers-InStep = record {
  read_key = refl;
  write_key = refl;
  event_key = refl;
  requests = refl;
  responses = refl;
  events = refl;
}

abbrev messages : List Message
messages = request (1 ∷ []) ∷ event (2 ∷ []) ∷ request [] ∷ response (3 ∷ 4 ∷ []) ∷ []

deliver_all-InStep_example :
    ((deliver_all plain_chacha messages peers).0 ≡ map (λ m. some (payload m)) messages)
    × InStep (deliver_all plain_chacha messages peers).1
deliver_all-InStep_example =
    deliver_all-InStep plain_chacha plain_chacha-laws messages peers peers-InStep (omega arith)

abbrev sealed_m3 : List ℕ
sealed_m3 =
    sub_tlv plain (9 ∷ []) (77 ∷ []) (m3_signed plain (replicate 32 1) (77 ∷ []) (replicate 32 1))
    ++ replicate 16 0

abbrev progress : VerifyInProgress
progress = record {
  accessory_eph_pub = replicate 32 1;
  controller_eph_pub = replicate 32 1;
  shared = replicate 32 2;
  pv_key = replicate 32 7;
}

abbrev session : AccessorySession
session = new (replicate 32 7) (replicate 32 7) (replicate 32 7)

handle_m3-IsAuthentic_example :
    (signature : List ℕ) × IsAuthentic plain progress (77 ∷ []) (replicate 32 3) signature
    × IsKeyed plain progress session
unfolding handle_m3 Map.parse Reader.parse push chunks push_u8 to_le_bytes Map.get expect_state
    get_u8 get_uint from_le_bytes
handle_m3-IsAuthentic_example =
    handle_m3-IsAuthentic plain progress (77 ∷ []) (replicate 32 3)
      (m3_message plain plain-laws sealed_m3) (push_u8 [] tlv_state 4) session refl

abbrev accessory : ControllerKeypair
accessory = record { id = 65 ∷ 66 ∷ []; signing = [] }

verifies-IsVerified_example : IsVerified plain plain-laws me accessory [] []
unfolding derive_key hkdf_sha512
verifies-IsVerified_example =
    verifies-IsVerified plain plain-laws me accessory [] [] (replicate 32 7)
      (sub_tlv plain [] (65 ∷ 66 ∷ [])
          (m2_signed plain (replicate 32 1) (65 ∷ 66 ∷ []) (replicate 32 1))
        ++ replicate 16 0)
      sealed_m3 refl refl refl

abbrev server : SrpServer
server = new_server small (record { n = 23; g = 5; n_len = 1 }) (80 ∷ []) (49 ∷ []) (115 ∷ []) 4

abbrev setup_m3 : List ℕ
setup_m3 = push (push (push_u8 [] tlv_state 3) tlv_public_key (10 ∷ [])) tlv_proof (7 ∷ [])

abbrev m5_sub : List ℕ
m5_sub =
    push (push (push [] tlv_identifier (77 ∷ [])) tlv_public_key (replicate 32 3)) tlv_signature
      (replicate 64 4)

abbrev setup_m5 : List ℕ
setup_m5 = push (push_u8 [] tlv_state 5) tlv_encrypted_data (m5_sub ++ replicate 16 0)

abbrev m6_sub : List ℕ
m6_sub =
    push (push (push [] tlv_identifier (65 ∷ 66 ∷ [])) tlv_public_key (replicate 32 3))
      tlv_signature (replicate 64 4)

abbrev enrolled : ControllerPairing
enrolled = record { id = 77 ∷ []; ltpk = replicate 32 3 }

handle_setup_m5_enrols_example :
    IsProved small server setup_m3 (7 ∷ []) × IsSigned plain (7 ∷ []) enrolled
unfolding handle_setup_m3 handle_setup_m5 Map.parse Reader.parse push chunks push_u8 to_le_bytes
    Map.get expect_state get_u8 get_uint from_le_bytes is_utf8 new_server server_session_key
    compute_v compute_b compute_k compute_x compute_u
handle_setup_m5_enrols_example =
    handle_setup_m5_enrols plain small server accessory (65 ∷ 66 ∷ []) setup_m3
      (push (push_u8 [] tlv_state 4) tlv_proof (7 ∷ [])) (7 ∷ []) setup_m5
      (push (push_u8 [] tlv_state 6) tlv_encrypted_data (m6_sub ++ replicate 16 0)) enrolled refl
      refl
