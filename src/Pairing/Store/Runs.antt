-- ===== src/Pairing/Store/Runs.antt =====
-- Concrete runs of the store, with a printer that takes documents of one plain accessory.
use Prim.Native.String.{String}
use hap_rust.Common.{
  ℕ, ◌≡◌, ◌≢◌, refl, ap, sym, ◌⊎◌, List, [], ◌∷◌, Option, none, some, Result, ok, err, stuck,
  replicate, arith, ok-injective,
}
use hap_rust.Pairing.Types.{PairingError}
use hap_rust.Pairing.Store.{
  StoredAccessory, ip, AccessoryRecord, TransportRecord, ip_record, ControllerRecord, Document,
  format_device_id, parse_device_id, encode_hex, decode_key_32, accessory_to_record,
  accessory_from_record,
}
use hap_rust.Pairing.Store.File.{
  Json, JsonLaws, Disk, read_doc, load_controller, load_pairings, save_pairing,
}
use hap_rust.Pairing.Store.Hex.{parse_device_id-format_device_id}
use hap_rust.Pairing.Store.Refinement.{saves, View, quiet, apply, run, Shows, run-Shows}

abbrev print_record :
    ℕ → List ℕ → List ℕ → Option (TransportRecord ℕ) → Option ℕ → Result String (List ℕ)
print_record n [] ltpk (some (ip_record a)) none = ok (n ∷ a ∷ ltpk)
print_record n _ ltpk _ _ = err "not plain"

abbrev print_fields :
    Option ℕ → Option ControllerRecord → List (AccessoryRecord ℕ) → Result String (List ℕ)
print_fields (some n) none (r ∷ []) = print_record n r.id r.ltpk_hex r.transport r.addr
print_fields _ _ _ = err "not plain"

abbrev read_bytes : List ℕ → Result String (Document ℕ)
read_bytes (n ∷ a ∷ ltpk) = ok (record {
  version = some n;
  controller = none;
  accessories =
      record { id = []; ltpk_hex = ltpk; transport = some (ip_record a); addr = none } ∷ [];
})
read_bytes _ = err "cut short"

abbrev plain_json : Json ℕ
plain_json = record {
  to_vec_pretty = λ d. print_fields d.version d.controller d.accessories;
  from_slice = read_bytes;
}

print_record_back :
    (n : ℕ) (id ltpk : List ℕ) (t : Option (TransportRecord ℕ)) (addr : Option ℕ) {bytes : List ℕ}
    → print_record n id ltpk t addr ≡ ok bytes
    → read_bytes bytes
      ≡ ok (record {
        version = some n;
        controller = none;
        accessories = record { id = id; ltpk_hex = ltpk; transport = t; addr = addr } ∷ [];
      })
print_record_back n [] ltpk (some (ip_record a)) none h =
    ap read_bytes (sym (ok-injective (n ∷ a ∷ ltpk) _ h))
print_record_back n id ltpk t addr h = cc

print_fields_back :
    (v : Option ℕ) (c : Option ControllerRecord) (rs : List (AccessoryRecord ℕ)) {bytes : List ℕ}
    → print_fields v c rs ≡ ok bytes
    → read_bytes bytes ≡ ok (record { version = v; controller = c; accessories = rs })
print_fields_back (some n) none (r ∷ []) h =
    print_record_back n r.id r.ltpk_hex r.transport r.addr h
print_fields_back v c rs h = cc

print_record_ends :
    (n : ℕ) (id ltpk : List ℕ) (t : Option (TransportRecord ℕ)) (addr : Option ℕ)
    → print_record n id ltpk t addr ≢ stuck
print_record_ends n [] ltpk (some (ip_record a)) none h = cc
print_record_ends n id ltpk t addr h = cc

print_fields_ends :
    (v : Option ℕ) (c : Option ControllerRecord) (rs : List (AccessoryRecord ℕ))
    → print_fields v c rs ≢ stuck
print_fields_ends (some n) none (r ∷ []) h =
    print_record_ends n r.id r.ltpk_hex r.transport r.addr h
print_fields_ends v c rs h = cc

plain_json-laws : JsonLaws plain_json
plain_json-laws = record {
  ends = λ d. print_fields_ends d.version d.controller d.accessories;
  reads = λ d h. print_fields_back d.version d.controller d.accessories h;
}

abbrev nothing : Disk
nothing = record { target = none; temporary = none }

abbrev unpaired : View ℕ
unpaired = record { controller = none; pairings = [] }

abbrev bulb : StoredAccessory ℕ
bulb = record { pairing = record { pairing_id = []; ltpk = replicate 32 0xAB }; transport = ip 9 }

nothing-Shows : Shows plain_json nothing unpaired
unfolding load_controller load_pairings read_doc
nothing-Shows = (refl, refl)

run-Shows_example :
    (((run plain_json quiet (saves bulb) nothing).0 ≡ ok tt)
      × Shows plain_json
          (run plain_json quiet (saves bulb) nothing).1
          (apply (saves bulb) unpaired))
    ⊎ ((e : PairingError) × ((run plain_json quiet (saves bulb) nothing).0 ≡ err e)
        × ((run plain_json quiet (saves bulb) nothing).1.target ≡ none))
run-Shows_example =
    run-Shows plain_json plain_json-laws quiet nothing (saves bulb) unpaired (omega arith)
      nothing-Shows

saved_run :
    load_pairings plain_json quiet (run plain_json quiet (saves bulb) nothing).1 ≡ ok (bulb ∷ [])
unfolding load_pairings save_pairing accessory_to_record accessory_from_record encode_hex
    decode_key_32
saved_run = refl

parse_device_id-format_device_id_run :
    parse_device_id (format_device_id (0x59 ∷ 0xFA ∷ 0xBC ∷ 0x61 ∷ 9 ∷ 0xD2 ∷ []))
    ≡ some (0x59 ∷ 0xFA ∷ 0xBC ∷ 0x61 ∷ 9 ∷ 0xD2 ∷ [])
parse_device_id-format_device_id_run =
    parse_device_id-format_device_id (0x59 ∷ 0xFA ∷ 0xBC ∷ 0x61 ∷ 9 ∷ 0xD2 ∷ []) refl (omega arith)
