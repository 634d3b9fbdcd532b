-- ===== src/Controller/Discovery/Sightings.antt =====
-- `collect_until` against a search that first removes repeated sightings.
use hap_rust.Common.{ℕ, ◌≡◌, refl, List, [], ◌∷◌, Bool, if◌then◌else◌, Bool-cases, inl, inr}
use hap_rust.Transport.Text.{to_ascii_lowercase}
use hap_rust.Controller.Discovery.{Discovered, id_of, contains, collect_from, collect_until}

-- The first sighting of each id, whatever its case.
abbrev pub first_sightings : (seen : List (List ℕ)) → List Discovered → List Discovered
first_sightings seen [] = []
first_sightings seen (d ∷ ds) =
    let key = to_ascii_lowercase (id_of d) in
    let skipped = first_sightings seen ds in
    let later = first_sightings (key ∷ seen) ds in if contains seen key then skipped else d ∷ later

module _ {S : Type 0} (stop : S → Discovered → Bool × S) where
  -- The elements up to the first at which `stop` says so, that one included.
  abbrev pub take_through : S → List Discovered → List Discovered
  take_through st [] = []
  take_through st (d ∷ ds) =
      let (hit, st') = stop st d in
      let later = take_through st' ds in if hit then d ∷ [] else d ∷ later

  collect_from_lem :
      (st : S) (seen : List (List ℕ)) (ds : List Discovered)
      → collect_from stop st seen ds ≡ take_through st (first_sightings seen ds)
  unfolding collect_from
  collect_from_lem st seen [] = refl
  collect_from_lem st seen (d ∷ ds) =
      let key = to_ascii_lowercase (id_of d) in
      elim (Bool-cases (contains seen key)) [
        | inl old ↦ rw (old, collect_from_lem st seen ds) refl
        | inr new ↦ rw (new, collect_from_lem (stop st d).1 (key ∷ seen) ds) refl
      ]

  -- Whatever the channel brings, and whatever state the test keeps, the result is the first sightings up to
  -- the first one for which the test holds.
  pub collect_until-take_through :
      (st : S) (ds : List Discovered)
      → collect_until stop st ds ≡ take_through st (first_sightings [] ds)
  unfolding collect_until
  collect_until-take_through st ds = collect_from_lem st [] ds
