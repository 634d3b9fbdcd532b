-- ===== src/Pairing/Store/File.antt =====
-- crates/hap-pairing/src/store.rs, `JsonFileStore`: every operation on the file. The lock makes a mutating
-- operation one step. JSON is the crate `serde_json`, a parameter; how each call of the file system ends
-- is an argument.
use Prim.Native.String.{String}
use hap_rust.Common.{
  ℕ, ◌≡◌, ◌≢◌, List, [], ◌∷◌, Option, none, some, Result, ok, err, stuck, map_err, ◌>>=◌, Bool,
  true, ◌==◌, if◌then◌else◌,
}
use hap_rust.Crypto.Primitives.{ControllerKeypair}
use hap_rust.Crypto.PairVerify.{bytes_eq}
use hap_rust.Pairing.Types.{PairingError, store, malformed}
use hap_rust.Pairing.Store.{
  StoredBroadcast, StoredAccessory, ControllerRecord, AccessoryRecord, TransportRecord, ble_record,
  Document, controller_to_record, controller_from_record, broadcast_record, accessory_to_record,
  accessory_from_record,
}

-- Printing and reading a document; an error is kept as its text.
pub record Json (A : Type 0) : Type 0 where
  pub to_vec_pretty : Document A → Result String (List ℕ)
  pub from_slice : List ℕ → Result String (Document A)

-- What the crate documents: printing ends, and a document that was printed is read back.
pub record JsonLaws {A : Type 0} (j : Json A) : Type 0 where
  pub ends : (d : Document A) → j.to_vec_pretty d ≢ stuck
  pub reads :
      (d : Document A) {bytes : List ℕ} → j.to_vec_pretty d ≡ ok bytes → j.from_slice bytes ≡ ok d

-- The file and the temporary file beside it.
pub record Disk : Type 0 where
  pub target : Option (List ℕ)
  pub temporary : Option (List ℕ)

-- How each call ends: with an error's text, or well. A write that fails leaves some bytes.
pub record Outcomes : Type 0 where
  pub read_error : Option String
  pub create_error : Option String
  pub write_error : Option String
  pub sync_error : Option String
  pub rename_error : Option String
  pub written_part : List ℕ

abbrev pub supported : Option ℕ → Bool
supported none = true
supported (some v) = if v == 1 then true else v == 2

-- One call of the file system and what follows it.
abbrev pub after_call :
    {S : Type 0}
    → Option String
    → S
    → Result PairingError (Unit {0}) × S
    → Result PairingError (Unit {0}) × S
after_call none s next = next
after_call (some e) s next = (err (store e), s)

unfoldable pub write_bytes : Outcomes → List ℕ → Disk → Result PairingError (Unit {0}) × Disk
write_bytes io bytes disk = after_call io.create_error disk (
    after_call io.write_error (record disk { temporary = some io.written_part })
      (after_call io.sync_error (record disk { temporary = some bytes })
        (after_call io.rename_error (record disk { temporary = some bytes })
          (ok tt, record { target = some bytes; temporary = none }))))

abbrev pub loaded : Option ControllerRecord → Result PairingError (Option ControllerKeypair)
loaded none = ok none
loaded (some r) = controller_from_record r >>= λ k. ok (some k)

module _ {A : Type 0} where
  abbrev pub empty : Document A
  empty = record { version = none; controller = none; accessories = [] }

  abbrev pub check_version : Document A → Result PairingError (Document A)
  check_version doc =
      if supported doc.version then ok doc else err (malformed "unsupported store version")

  -- The first record with the id is replaced, or the record is put behind the others.
  unfoldable pub put_record :
      AccessoryRecord A → List (AccessoryRecord A) → List (AccessoryRecord A)
  put_record r [] = r ∷ []
  put_record r (x ∷ xs) = if bytes_eq x.id r.id then r ∷ xs else x ∷ put_record r xs

  unfoldable pub retain_others : List ℕ → List (AccessoryRecord A) → List (AccessoryRecord A)
  retain_others id [] = []
  retain_others id (x ∷ xs) =
      let rest = retain_others id xs in if bytes_eq x.id id then rest else x ∷ rest

  abbrev pub with_broadcast :
      StoredBroadcast → Option (TransportRecord A) → Option (TransportRecord A)
  with_broadcast b (some (ble_record device_id old)) =
      some (ble_record device_id (some (broadcast_record b)))
  with_broadcast b other = none

  abbrev pub set_here :
      AccessoryRecord A
      → List (AccessoryRecord A)
      → Option (TransportRecord A)
      → Option (List (AccessoryRecord A))
  set_here x xs none = none
  set_here x xs (some t) = some (record x { transport = some t } ∷ xs)

  abbrev pub set_behind :
      AccessoryRecord A → Option (List (AccessoryRecord A)) → Option (List (AccessoryRecord A))
  set_behind x none = none
  set_behind x (some ys) = some (x ∷ ys)

  -- Only the first record with the id is looked at; `none` where there is none or it is not of a
  -- Bluetooth accessory.
  unfoldable pub set_record :
      List ℕ → StoredBroadcast → List (AccessoryRecord A) → Option (List (AccessoryRecord A))
  set_record id b [] = none
  set_record id b (x ∷ xs) =
      let behind = set_behind x (set_record id b xs) in
      if bytes_eq x.id id then set_here x xs (with_broadcast b x.transport) else behind

  -- `.map(accessory_from_record).collect()`
  unfoldable pub collect : List (AccessoryRecord A) → Result PairingError (List (StoredAccessory A))
  collect [] = ok []
  collect (r ∷ rs) = do a ← accessory_from_record r; rest ← collect rs; ok (a ∷ rest)

  abbrev pub changed_records : Document A → Option (List (AccessoryRecord A)) → Option (Document A)
  changed_records doc none = none
  changed_records doc (some rs) = some (record doc { accessories = rs })

module _ {A : Type 0} (j : Json A) where
  abbrev pub read_target : Option (List ℕ) → Result PairingError (Document A)
  read_target none = ok empty
  read_target (some bytes) = map_err store (j.from_slice bytes) >>= check_version

  -- A missing file is an empty document.
  unfoldable pub read_doc : Option String → Disk → Result PairingError (Document A)
  read_doc none disk = read_target disk.target
  read_doc (some e) disk = err (store e)

  abbrev pub write_printed :
      Outcomes → Result String (List ℕ) → Disk → Result PairingError (Unit {0}) × Disk
  write_printed io (ok bytes) disk = write_bytes io bytes disk
  write_printed io (err e) disk = (err (store e), disk)
  write_printed io stuck disk = (stuck, disk)

  unfoldable pub write_doc : Outcomes → Document A → Disk → Result PairingError (Unit {0}) × Disk
  unfolding write_bytes
  write_doc io doc disk = write_printed io (j.to_vec_pretty (record doc { version = some 2 })) disk

  -- The read-modify-write of each operation; `none` is the early return that writes nothing.
  abbrev pub write_changed :
      Outcomes → Option (Document A) → Disk → Result PairingError (Unit {0}) × Disk
  write_changed io none disk = (ok tt, disk)
  write_changed io (some doc) disk = write_doc io doc disk

  abbrev pub modify_read :
      Outcomes
      → (Document A → Option (Document A))
      → Result PairingError (Document A)
      → Disk
      → Result PairingError (Unit {0}) × Disk
  modify_read io change (ok doc) disk = write_changed io (change doc) disk
  modify_read io change (err e) disk = (err e, disk)
  modify_read io change stuck disk = (stuck, disk)

  unfoldable pub modify :
      Outcomes → (Document A → Option (Document A)) → Disk → Result PairingError (Unit {0}) × Disk
  unfolding read_doc write_doc
  modify io change disk = modify_read io change (read_doc io.read_error disk) disk

  unfoldable pub load_controller : Outcomes → Disk → Result PairingError (Option ControllerKeypair)
  unfolding read_doc
  load_controller io disk = read_doc io.read_error disk >>= λ doc. loaded doc.controller

  unfoldable pub save_controller :
      Outcomes → ControllerKeypair → Disk → Result PairingError (Unit {0}) × Disk
  unfolding modify
  save_controller io k disk =
      modify io (λ doc. some (record doc { controller = some (controller_to_record k) })) disk

  unfoldable pub load_pairings : Outcomes → Disk → Result PairingError (List (StoredAccessory A))
  unfolding read_doc collect
  load_pairings io disk = read_doc io.read_error disk >>= λ doc. collect doc.accessories

  unfoldable pub save_pairing :
      Outcomes → StoredAccessory A → Disk → Result PairingError (Unit {0}) × Disk
  unfolding modify put_record
  save_pairing io a disk =
      modify io
        (λ doc.
          some (record doc { accessories = put_record (accessory_to_record a) doc.accessories }))
        disk

  unfoldable pub delete_pairing : Outcomes → List ℕ → Disk → Result PairingError (Unit {0}) × Disk
  unfolding modify retain_others
  delete_pairing io id disk =
      modify io (λ doc. some (record doc { accessories = retain_others id doc.accessories })) disk

  unfoldable pub save_broadcast_state :
      Outcomes → List ℕ → StoredBroadcast → Disk → Result PairingError (Unit {0}) × Disk
  unfolding modify set_record
  save_broadcast_state io id b disk =
      modify io (λ doc. changed_records doc (set_record id b doc.accessories)) disk
