-- ===== src/Controller/Handle/Search.antt =====
-- What `find` finds in the cached tree.
use hap_rust.Common.{ℕ, List, [], ◌∷◌, ◌++◌, Option, none, some, ◌==◌, ◌&&◌, if◌then◌else◌, map}
use hap_rust.Controller.Handle.{Characteristic, Service, Accessory}

-- A characteristic with the types of its service and of itself, and with its ids.
abbrev pub Listed : Type 0
Listed = (ℕ × ℕ) × (ℕ × ℕ)

abbrev listing_of_service : (aid service : ℕ) → List Characteristic → List Listed
listing_of_service aid service cs = map (λ c. ((service, c.char_type), (aid, c.iid))) cs

abbrev listing_of_accessory : (aid : ℕ) → List Service → List Listed
listing_of_accessory aid [] = []
listing_of_accessory aid (s ∷ ss) =
    listing_of_service aid s.service_type s.characteristics ++ listing_of_accessory aid ss

-- The tree as one list, in its order.
abbrev pub listing : List Accessory → List Listed
listing [] = []
listing (a ∷ rest) = listing_of_accessory a.aid a.services ++ listing rest

-- The ids of the first characteristic of the list with the two types.
abbrev pub first_of : (service wanted : ℕ) → List Listed → Option (ℕ × ℕ)
first_of service wanted [] = none
first_of service wanted (((s, c), id) ∷ xs) =
    let later = first_of service wanted xs in
    if (s == service) && (c == wanted) then some id else later
