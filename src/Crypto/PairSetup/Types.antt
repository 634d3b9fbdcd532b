-- ===== src/Crypto/PairSetup/Types.antt =====
-- crates/hap-crypto/src/pair_setup.rs: the states of `PairSetupClient`, and its constants.
use hap_rust.Common.{ℕ, List, [], ◌∷◌}
use hap_rust.Crypto.Primitives.{ControllerKeypair}
use hap_rust.Crypto.Srp.{SrpClient}
use hap_rust.Crypto.PairVerify.Types.{AccessoryPairing}

-- `Pair-Setup`
abbrev pub pair_setup_username : List ℕ
pair_setup_username = 80 ∷ 97 ∷ 105 ∷ 114 ∷ 45 ∷ 83 ∷ 101 ∷ 116 ∷ 117 ∷ 112 ∷ []

-- `Pair-Setup-Encrypt-Salt`
abbrev pub encrypt_salt : List ℕ
encrypt_salt =
    80 ∷ 97 ∷ 105 ∷ 114 ∷ 45 ∷ 83 ∷ 101 ∷ 116 ∷ 117 ∷ 112 ∷ 45 ∷ 69 ∷ 110 ∷ 99 ∷ 114 ∷ 121 ∷ 112
    ∷ 116 ∷ 45 ∷ 83 ∷ 97 ∷ 108 ∷ 116 ∷ []

-- `Pair-Setup-Encrypt-Info`
abbrev pub encrypt_info : List ℕ
encrypt_info =
    80 ∷ 97 ∷ 105 ∷ 114 ∷ 45 ∷ 83 ∷ 101 ∷ 116 ∷ 117 ∷ 112 ∷ 45 ∷ 69 ∷ 110 ∷ 99 ∷ 114 ∷ 121 ∷ 112
    ∷ 116 ∷ 45 ∷ 73 ∷ 110 ∷ 102 ∷ 111 ∷ []

-- `Pair-Setup-Controller-Sign-Salt`
abbrev pub controller_sign_salt : List ℕ
controller_sign_salt =
    80 ∷ 97 ∷ 105 ∷ 114 ∷ 45 ∷ 83 ∷ 101 ∷ 116 ∷ 117 ∷ 112 ∷ 45 ∷ 67 ∷ 111 ∷ 110 ∷ 116 ∷ 114 ∷ 111
    ∷ 108 ∷ 108 ∷ 101 ∷ 114 ∷ 45 ∷ 83 ∷ 105 ∷ 103 ∷ 110 ∷ 45 ∷ 83 ∷ 97 ∷ 108 ∷ 116 ∷ []

-- `Pair-Setup-Controller-Sign-Info`
abbrev pub controller_sign_info : List ℕ
controller_sign_info =
    80 ∷ 97 ∷ 105 ∷ 114 ∷ 45 ∷ 83 ∷ 101 ∷ 116 ∷ 117 ∷ 112 ∷ 45 ∷ 67 ∷ 111 ∷ 110 ∷ 116 ∷ 114 ∷ 111
    ∷ 108 ∷ 108 ∷ 101 ∷ 114 ∷ 45 ∷ 83 ∷ 105 ∷ 103 ∷ 110 ∷ 45 ∷ 73 ∷ 110 ∷ 102 ∷ 111 ∷ []

-- `Pair-Setup-Accessory-Sign-Salt`
abbrev pub accessory_sign_salt : List ℕ
accessory_sign_salt =
    80 ∷ 97 ∷ 105 ∷ 114 ∷ 45 ∷ 83 ∷ 101 ∷ 116 ∷ 117 ∷ 112 ∷ 45 ∷ 65 ∷ 99 ∷ 99 ∷ 101 ∷ 115 ∷ 115
    ∷ 111 ∷ 114 ∷ 121 ∷ 45 ∷ 83 ∷ 105 ∷ 103 ∷ 110 ∷ 45 ∷ 83 ∷ 97 ∷ 108 ∷ 116 ∷ []

-- `Pair-Setup-Accessory-Sign-Info`
abbrev pub accessory_sign_info : List ℕ
accessory_sign_info =
    80 ∷ 97 ∷ 105 ∷ 114 ∷ 45 ∷ 83 ∷ 101 ∷ 116 ∷ 117 ∷ 112 ∷ 45 ∷ 65 ∷ 99 ∷ 99 ∷ 101 ∷ 115 ∷ 115
    ∷ 111 ∷ 114 ∷ 121 ∷ 45 ∷ 83 ∷ 105 ∷ 103 ∷ 110 ∷ 45 ∷ 73 ∷ 110 ∷ 102 ∷ 111 ∷ []

-- `PS-Msg05`
abbrev pub nonce_m5 : List ℕ
nonce_m5 = 80 ∷ 83 ∷ 45 ∷ 77 ∷ 115 ∷ 103 ∷ 48 ∷ 53 ∷ []

-- `PS-Msg06`
abbrev pub nonce_m6 : List ℕ
nonce_m6 = 80 ∷ 83 ∷ 45 ∷ 77 ∷ 115 ∷ 103 ∷ 48 ∷ 54 ∷ []

abbrev pub state_m5 : ℕ
state_m5 = 5

abbrev pub state_m6 : ℕ
state_m6 = 6

pub data PairSetupStep : Type 0 where
  send : List ℕ → PairSetupStep
  done : AccessoryPairing → PairSetupStep

-- The session key, and in `awaiting_m4` the proof that was sent.
pub data State : Type 0 where
  initial awaiting_m2 : State
  awaiting_m4 : (session_key m1 : List ℕ) → State
  awaiting_m6 : (session_key : List ℕ) → State
  finished : State

-- The password is given by its UTF-8 bytes.
pub record PairSetupClient : Type 0 where
  pub password : List ℕ
  pub controller : ControllerKeypair
  pub srp : SrpClient
  pub state : State
