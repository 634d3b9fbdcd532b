-- ===== src/Crypto/PairVerify/Types.antt =====
-- crates/hap-crypto/src/pair_verify.rs: the states of `PairVerifyClient`, and its constants.
use hap_rust.Common.{ℕ, List, [], ◌∷◌, Option, none}
use hap_rust.Crypto.Primitives.{EphemeralKeypair, ControllerKeypair}

-- `Pair-Verify-Encrypt-Salt`
abbrev pub pv_encrypt_salt : List ℕ
pv_encrypt_salt =
    80 ∷ 97 ∷ 105 ∷ 114 ∷ 45 ∷ 86 ∷ 101 ∷ 114 ∷ 105 ∷ 102 ∷ 121 ∷ 45 ∷ 69 ∷ 110 ∷ 99 ∷ 114 ∷ 121
    ∷ 112 ∷ 116 ∷ 45 ∷ 83 ∷ 97 ∷ 108 ∷ 116 ∷ []

-- `Pair-Verify-Encrypt-Info`
abbrev pub pv_encrypt_info : List ℕ
pv_encrypt_info =
    80 ∷ 97 ∷ 105 ∷ 114 ∷ 45 ∷ 86 ∷ 101 ∷ 114 ∷ 105 ∷ 102 ∷ 121 ∷ 45 ∷ 69 ∷ 110 ∷ 99 ∷ 114 ∷ 121
    ∷ 112 ∷ 116 ∷ 45 ∷ 73 ∷ 110 ∷ 102 ∷ 111 ∷ []

-- `Control-Salt`
abbrev pub control_salt : List ℕ
control_salt = 67 ∷ 111 ∷ 110 ∷ 116 ∷ 114 ∷ 111 ∷ 108 ∷ 45 ∷ 83 ∷ 97 ∷ 108 ∷ 116 ∷ []

-- `Control-Read-Encryption-Key`
abbrev pub control_read_info : List ℕ
control_read_info =
    67 ∷ 111 ∷ 110 ∷ 116 ∷ 114 ∷ 111 ∷ 108 ∷ 45 ∷ 82 ∷ 101 ∷ 97 ∷ 100 ∷ 45 ∷ 69 ∷ 110 ∷ 99 ∷ 114
    ∷ 121 ∷ 112 ∷ 116 ∷ 105 ∷ 111 ∷ 110 ∷ 45 ∷ 75 ∷ 101 ∷ 121 ∷ []

-- `Control-Write-Encryption-Key`
abbrev pub control_write_info : List ℕ
control_write_info =
    67 ∷ 111 ∷ 110 ∷ 116 ∷ 114 ∷ 111 ∷ 108 ∷ 45 ∷ 87 ∷ 114 ∷ 105 ∷ 116 ∷ 101 ∷ 45 ∷ 69 ∷ 110 ∷ 99
    ∷ 114 ∷ 121 ∷ 112 ∷ 116 ∷ 105 ∷ 111 ∷ 110 ∷ 45 ∷ 75 ∷ 101 ∷ 121 ∷ []

-- `Event-Salt`
abbrev pub event_salt : List ℕ
event_salt = 69 ∷ 118 ∷ 101 ∷ 110 ∷ 116 ∷ 45 ∷ 83 ∷ 97 ∷ 108 ∷ 116 ∷ []

-- `Event-Read-Encryption-Key`
abbrev pub event_read_info : List ℕ
event_read_info =
    69 ∷ 118 ∷ 101 ∷ 110 ∷ 116 ∷ 45 ∷ 82 ∷ 101 ∷ 97 ∷ 100 ∷ 45 ∷ 69 ∷ 110 ∷ 99 ∷ 114 ∷ 121 ∷ 112
    ∷ 116 ∷ 105 ∷ 111 ∷ 110 ∷ 45 ∷ 75 ∷ 101 ∷ 121 ∷ []

-- `PV-Msg02`
abbrev pub nonce_m2 : List ℕ
nonce_m2 = 80 ∷ 86 ∷ 45 ∷ 77 ∷ 115 ∷ 103 ∷ 48 ∷ 50 ∷ []

-- `PV-Msg03`
abbrev pub nonce_m3 : List ℕ
nonce_m3 = 80 ∷ 86 ∷ 45 ∷ 77 ∷ 115 ∷ 103 ∷ 48 ∷ 51 ∷ []

abbrev pub state_m1 : ℕ
state_m1 = 1

abbrev pub state_m2 : ℕ
state_m2 = 2

abbrev pub state_m3 : ℕ
state_m3 = 3

abbrev pub state_m4 : ℕ
state_m4 = 4

pub record SessionKeys : Type 0 where
  pub read_key : List ℕ
  pub write_key : List ℕ

-- What Pair Setup has stored of an accessory.
pub record AccessoryPairing : Type 0 where
  pub pairing_id : List ℕ
  pub ltpk : List ℕ

pub data PairVerifyStep : Type 0 where
  send : List ℕ → PairVerifyStep
  done : SessionKeys → PairVerifyStep

pub data State : Type 0 where
  init await_m2 await_m4 finished : State

pub record PairVerifyClient : Type 0 where
  pub controller_id : List ℕ
  pub signing : List ℕ
  pub accessory : AccessoryPairing
  pub ephemeral : EphemeralKeypair
  pub shared_secret : Option (List ℕ)
  pub state : State

unfoldable pub build : ControllerKeypair → AccessoryPairing → EphemeralKeypair → PairVerifyClient
build controller accessory ephemeral = record {
  controller_id = controller.id;
  signing = controller.signing;
  accessory = accessory;
  ephemeral = ephemeral;
  shared_secret = none;
  state = init;
}
