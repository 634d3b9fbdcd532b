-- ===== src/Controller/Discovery.antt =====
-- crates/hap-controller/src: discovered.rs, discover_until.rs and payload_match.rs, with setup.rs of
-- crates/hap-crypto. An accessory is kept to the fields that these read; SHA-512 is a parameter.
pub mod Sightings
pub mod Matching
mod Runs
use hap_rust.Common.{
  ℕ, ◌-◌, List, [], ◌∷◌, ◌++◌, Option, none, some, Bool, true, false, leb, ◌==◌, ◌&&◌, ◌||◌,
  if◌then◌else◌, map, take,
}
use hap_rust.Crypto.PairVerify.{bytes_eq}
use hap_rust.Transport.Text.{to_ascii_lowercase}
use hap_rust.Controller.SetupPayload.{SetupPayload}

pub record Advertised : Type 0 where
  pub id : List ℕ
  pub category : ℕ
  pub setup_hash : Option (List ℕ)

pub data Discovered : Type 0 where
  ip ble : Advertised → Discovered

abbrev pub advertised : Discovered → Advertised
advertised (ip a) = a
advertised (ble a) = a

abbrev pub id_of : Discovered → List ℕ
id_of d = (advertised d).id

abbrev pub category_of : Discovered → ℕ
category_of d = (advertised d).category

abbrev pub ascii_upper : ℕ → ℕ
ascii_upper c = if leb 97 c && leb c 122 then c - 32 else c

abbrev pub to_ascii_uppercase : List ℕ → List ℕ
to_ascii_uppercase s = map ascii_upper s

-- `HashSet::contains`
abbrev pub contains : List (List ℕ) → List ℕ → Bool
contains [] k = false
contains (x ∷ xs) k = bytes_eq x k || contains xs k

-- `stop` may keep a state of its own. The list is what the channel brings before it closes.
module _ {S : Type 0} (stop : S → Discovered → Bool × S) where
  unfoldable pub collect_from : S → (seen : List (List ℕ)) → List Discovered → List Discovered
  collect_from st seen [] = []
  collect_from st seen (d ∷ ds) =
      let key = to_ascii_lowercase (id_of d) in
      let skipped = collect_from st seen ds in
      let (hit, st') = stop st d in
      let later = collect_from st' (key ∷ seen) ds in
      if contains seen key then skipped else if hit then d ∷ [] else d ∷ later

  unfoldable pub collect_until : S → List Discovered → List Discovered
  unfolding collect_from
  collect_until st ds = collect_from st [] ds

pub data PayloadMatch : Type 0 where
  exact category_only : PayloadMatch

module _ (sha512 : List ℕ → List ℕ) where
  unfoldable pub setup_hash : (setup_id device_id : List ℕ) → List ℕ
  setup_hash setup_id device_id = take 4 (sha512 (setup_id ++ device_id))

  abbrev pub then_some : Bool → PayloadMatch → Option PayloadMatch
  then_some true m = some m
  then_some false m = none

  unfoldable pub match_hash : (setup_id device_id hash : List ℕ) → Option PayloadMatch
  unfolding setup_hash
  match_hash setup_id device_id hash =
      then_some
        (bytes_eq (setup_hash setup_id device_id) hash
          || bytes_eq (setup_hash setup_id (to_ascii_uppercase device_id)) hash)
        exact

  abbrev pub match_by :
      Option (List ℕ) → Option (List ℕ) → Discovered → (category : ℕ) → Option PayloadMatch
  match_by (some setup_id) (some h) d category = match_hash setup_id (id_of d) h
  match_by (some setup_id) none d category = then_some (category_of d == category) category_only
  match_by none hash d category = then_some (category_of d == category) category_only

  unfoldable pub match_kind : SetupPayload → Discovered → Option PayloadMatch
  match_kind p d = match_by p.setup_id (advertised d).setup_hash d p.category
