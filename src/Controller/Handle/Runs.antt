-- ===== src/Controller/Handle/Runs.antt =====
-- A concrete tree that is fetched and searched.
use hap_rust.Common.{ℕ, ◌≡◌, refl, List, [], ◌∷◌, some, Result, ok, true, false}
use hap_rust.Model.Types.{ModelError}
use hap_rust.Model.Format.{CharFormat, bool, uint8}
use hap_rust.Controller.Reconnect.{SessionResponse}
use hap_rust.Controller.Supervisor.{declared}
use hap_rust.Controller.Handle.{Accessory, IpHandle, accessories}
use hap_rust.Controller.Handle.Formats.{In, entries, accessories-learns}

abbrev lamp : List Accessory
lamp =
    record {
      aid = 1;
      services =
          record {
            iid = 2;
            service_type = 67;
            characteristics =
                record { iid = 10; char_type = 37; format = bool }
                ∷ record { iid = 11; char_type = 8; format = uint8 }
                ∷ [];
          }
          ∷ [];
    }
    ∷ []

abbrev parse_lamp : List ℕ → Result ModelError (List Accessory)
parse_lamp body = ok lamp

-- A tree is cached, and a refresh is asked for.
abbrev stale : IpHandle
stale = record { accessories = some []; formats = []; needs_refresh = true }

abbrev answer : SessionResponse
answer = record { status = 200; body = [] }

accessories-learns_example :
    let out = accessories parse_lamp (ok answer) stale in
    (out.0 ≡ ok lamp)
    × (out.1.accessories ≡ some lamp)
    × (out.1.needs_refresh ≡ false)
    × ((id : ℕ × ℕ) (f : CharFormat)
        → In (id, f) (entries lamp)
        → ((g : CharFormat) → In (id, g) (entries lamp) → g ≡ f)
        → declared out.1.formats id ≡ some f)
accessories-learns_example = accessories-learns parse_lamp answer stale lamp refl refl refl

abbrev fetched : IpHandle
fetched = record stale { accessories = some lamp }
