-- ===== src/Crypto/PairSetup/Runs.antt =====
-- A concrete Pair Setup: messages of an accessory that knows the code.
use hap_rust.Common.{
  ℕ, ◌≡◌, refl, List, [], ◌∷◌, ◌++◌, replicate, chunks, to_le_bytes, from_le_bytes, is_utf8,
}
use hap_rust.Tlv8.Map
use hap_rust.Tlv8.Reader
use hap_rust.Tlv8.Map.{get_u8, get_uint}
use hap_rust.Tlv8.Writer.{push, push_u8}
use hap_rust.Crypto.Types.{
  tlv_identifier, tlv_salt, tlv_public_key, tlv_proof, tlv_encrypted_data, tlv_state, tlv_signature,
}
use hap_rust.Crypto.Plain.{plain, me, small}
use hap_rust.Crypto.Primitives.{hkdf_sha512}
use hap_rust.Crypto.Srp.{
  SrpClient, premaster, client_session_key, client_proof_m1, verify_m2, with_private,
}
use hap_rust.Crypto.Srp.Group.{hap_group, hap_n_3072}
use hap_rust.Crypto.PairVerify.Types.{AccessoryPairing}
use hap_rust.Crypto.PairVerify.{required, to_array}
use hap_rust.Crypto.PairSetup.Types.{pair_setup_username, PairSetupClient, initial, finished}
use hap_rust.Crypto.PairSetup.{
  normalize_setup_code, new_with_private, start, handle, check_error, expect_state, ascii_digits,
}
use hap_rust.Crypto.PairSetup.Safety.{IsSigned}
use hap_rust.Crypto.PairSetup.Driven.{Received, created, started, handled, handle-IsSigned}

abbrev code : List ℕ
code = 49 ∷ 50 ∷ 51 ∷ []

abbrev srp_client : SrpClient
srp_client = record {
  group = record { n = 255; g = 5; n_len = 1 };
  username = pair_setup_username;
  a = 3;
  a_pub = 125;
}

abbrev c0 : PairSetupClient
c0 = record { password = code; controller = me; srp = srp_client; state = initial }

abbrev m2 : List ℕ
m2 = push (push (push_u8 [] tlv_state 2) tlv_salt (115 ∷ [])) tlv_public_key (9 ∷ [])

abbrev m4 : List ℕ
m4 = push (push_u8 [] tlv_state 4) tlv_proof (7 ∷ [])

abbrev pairing : AccessoryPairing
pairing = record { pairing_id = 65 ∷ []; ltpk = replicate 32 3 }

abbrev m6_sub : List ℕ
m6_sub =
    push (push (push [] tlv_identifier (65 ∷ [])) tlv_public_key (replicate 32 3)) tlv_signature
      (replicate 64 4)

abbrev m6 : List ℕ
m6 = push (push_u8 [] tlv_state 6) tlv_encrypted_data (m6_sub ++ replicate 16 0)

abbrev c1 : PairSetupClient
c1 = (start plain small c0).1

abbrev c2 : PairSetupClient
c2 = (handle plain small c1 m2).1

abbrev c3 : PairSetupClient
c3 = (handle plain small c2 m4).1

handle-IsSigned_example :
    IsSigned plain small
      (normalize_setup_code code)
      srp_client
      (Received plain small (m4 ∷ m2 ∷ []))
      pairing
    × ((handle plain small c3 m6).1.state ≡ finished)
unfolding new_with_private hap_group with_private normalize_setup_code ascii_digits handle start
    Map.parse Reader.parse push chunks push_u8 to_le_bytes check_error Map.get expect_state get_u8
    get_uint from_le_bytes required to_array premaster client_session_key client_proof_m1 verify_m2
    hkdf_sha512 is_utf8 hap_n_3072
handle-IsSigned_example =
    handle-IsSigned plain small code (3 ∷ []) me c0 c3 (handle plain small c3 m6).1 (m4 ∷ m2 ∷ [])
      m6 pairing refl (handled (handled (started created) m2) m4) refl
