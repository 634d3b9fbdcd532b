-- ===== src/Controller/Handle.antt =====
-- crates/hap-controller/src/handle.rs: the cached tree of a handle. What a request brings is an argument.
-- The generated types of services and of characteristics are known by numbers, and a characteristic is kept
-- to the fields that the handle reads.
pub mod Formats
pub mod Search
mod Runs
use hap_rust.Common.{
  ℕ, List, [], ◌∷◌, Option, none, some, Result, ok, err, stuck, Bool, true, false, ltb, leb, ◌&&◌,
  ◌==◌, if◌then◌else◌, map_err,
}
use hap_rust.Model.Types.{ModelError}
use hap_rust.Model.Format.{CharFormat}
use hap_rust.Controller.Types.{HapError, http, model, characteristic_not_found}
use hap_rust.Controller.Reconnect.{SessionResponse}
use hap_rust.Controller.Supervisor.{FormatMap}

pub record Characteristic : Type 0 where
  pub iid : ℕ
  pub char_type : ℕ
  pub format : CharFormat

pub record Service : Type 0 where
  pub iid : ℕ
  pub service_type : ℕ
  pub characteristics : List Characteristic

pub record Accessory : Type 0 where
  pub aid : ℕ
  pub services : List Service

-- The cached tree, and what the handle shares with the supervisor: the formats, and the wish for a refresh.
pub record IpHandle : Type 0 where
  pub accessories : Option (List Accessory)
  pub formats : FormatMap
  pub needs_refresh : Bool

abbrev pub is_success : ℕ → Bool
is_success status = leb 200 status && ltb status 300

-- `map.insert` puts the newest entry in front, where it is found first.
unfoldable pub learn_characteristics : (aid : ℕ) → List Characteristic → FormatMap → FormatMap
learn_characteristics aid [] fs = fs
learn_characteristics aid (c ∷ cs) fs = learn_characteristics aid cs (((aid, c.iid), c.format) ∷ fs)

unfoldable pub learn_services : (aid : ℕ) → List Service → FormatMap → FormatMap
learn_services aid [] fs = fs
learn_services aid (s ∷ ss) fs =
    learn_services aid ss (learn_characteristics aid s.characteristics fs)

unfoldable pub learn : List Accessory → FormatMap → FormatMap
learn [] fs = fs
learn (a ∷ rest) fs = learn rest (learn_services a.aid a.services fs)

abbrev pub drop_stale : IpHandle → IpHandle
drop_stale h = if h.needs_refresh then record h { accessories = none; needs_refresh = false } else h

module _ (parse_accessories : List ℕ → Result ModelError (List Accessory)) where
  abbrev pub keep_tree :
      Result ModelError (List Accessory) → IpHandle → Result HapError (List Accessory) × IpHandle
  keep_tree (ok tree) h = (ok tree, record h { accessories = some tree; formats = learn tree [] })
  keep_tree (err e) h = (err (model e), h)
  keep_tree stuck h = (stuck, h)

  abbrev pub take_answer :
      Result HapError SessionResponse → IpHandle → Result HapError (List Accessory) × IpHandle
  take_answer (ok r) h =
      if is_success r.status
      then keep_tree (parse_accessories r.body) h
      else (err (http r.status), h)
  take_answer (err e) h = (err e, h)
  take_answer stuck h = (stuck, h)

  abbrev pub cached_or :
      Option (List Accessory)
      → Result HapError SessionResponse
      → IpHandle
      → Result HapError (List Accessory) × IpHandle
  cached_or (some tree) answer h = (ok tree, h)
  cached_or none answer h = take_answer answer h

  -- `answer` is what a request for the tree brings.
  unfoldable pub accessories :
      Result HapError SessionResponse → IpHandle → Result HapError (List Accessory) × IpHandle
  accessories answer h = let h' = drop_stale h in cached_or h'.accessories answer h'

-- The first that matches, in the order of the three loops.
abbrev pub or_else : Option (ℕ × ℕ) → Option (ℕ × ℕ) → Option (ℕ × ℕ)
or_else (some x) later = some x
or_else none later = later

unfoldable pub find_characteristic : (aid wanted : ℕ) → List Characteristic → Option (ℕ × ℕ)
find_characteristic aid wanted [] = none
find_characteristic aid wanted (c ∷ cs) =
    let later = find_characteristic aid wanted cs in
    if c.char_type == wanted then some (aid, c.iid) else later

unfoldable pub find_service : (aid service wanted : ℕ) → List Service → Option (ℕ × ℕ)
unfolding find_characteristic
find_service aid service wanted [] = none
find_service aid service wanted (s ∷ ss) =
    let later = find_service aid service wanted ss in
    if s.service_type == service
    then or_else (find_characteristic aid wanted s.characteristics) later
    else later

unfoldable pub find_accessory : (service wanted : ℕ) → List Accessory → Option (ℕ × ℕ)
unfolding find_service
find_accessory service wanted [] = none
find_accessory service wanted (a ∷ rest) =
    or_else (find_service a.aid service wanted a.services) (find_accessory service wanted rest)

abbrev pub or_empty : Option (List Accessory) → List Accessory
or_empty none = []
or_empty (some tree) = tree

abbrev pub found_or_missing : Option (ℕ × ℕ) → Result HapError (ℕ × ℕ)
found_or_missing (some x) = ok x
found_or_missing none = err (characteristic_not_found 0 0)

unfoldable pub find : (service wanted : ℕ) → IpHandle → Result HapError (ℕ × ℕ)
unfolding find_accessory
find service wanted h = found_or_missing (find_accessory service wanted (or_empty h.accessories))
