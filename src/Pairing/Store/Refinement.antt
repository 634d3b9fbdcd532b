-- ===== src/Pairing/Store/Refinement.antt =====
-- The file as a list of accessories and a controller: every operation does to these what its name says,
-- or fails and leaves the file as it was.
use Prim.Native.String.{String}
use hap_rust.Common.{
  ℕ, ◌≡◌, refl, sym, ap, ◌∙◌, ◌⊎◌, inl, inr, List, [], Option, none, some, Result, ok, err, stuck,
  both_steps, then_ok, ok-injective,
}
use mathlib.Core.Path.{subst}
use hap_rust.Crypto.Primitives.{ControllerKeypair}
use hap_rust.Pairing.Types.{PairingError, store}
use hap_rust.Pairing.Store.{
  StoredBroadcast, StoredAccessory, AccessoryRecord, Document, controller_to_record,
  accessory_to_record,
}
use hap_rust.Pairing.Store.Records.{
  IsArray, IsStored, accessory_from_record-accessory_to_record,
  controller_from_record-controller_to_record,
}
use hap_rust.Pairing.Store.File.{
  Json, JsonLaws, Disk, Outcomes, after_call, read_target, read_doc, write_bytes, write_printed,
  write_doc, modify, put_record, retain_others, set_record, loaded, load_controller,
  save_controller, collect, load_pairings, save_pairing, delete_pairing, save_broadcast_state,
  changed_records, write_changed, modify_read,
}
use hap_rust.Pairing.Store.Reading.{
  put, remove, set_broadcast, Reads, collect→Reads, Reads→collect, Reads-put, Reads-remove,
  ReadsChanged, Reads-set,
}

-- What the store can be asked to keep.
pub data Change (A : Type 0) : Type 0 where
  saves_controller : ControllerKeypair → Change A
  saves : StoredAccessory A → Change A
  deletes : (id : List ℕ) → Change A
  sets : (id : List ℕ) (broadcast : StoredBroadcast) → Change A

-- What the store shows.
pub record View (A : Type 0) : Type 0 where
  pub controller : Option ControllerKeypair
  pub pairings : List (StoredAccessory A)

-- Every call ends well.
abbrev pub quiet : Outcomes
quiet = record {
  read_error = none;
  create_error = none;
  write_error = none;
  sync_error = none;
  rename_error = none;
  written_part = [];
}

-- A call failed, and the file is as it was.
abbrev Failed : Disk → Result PairingError (Unit {0}) × Disk → Type 0
Failed disk r = (e : PairingError) × (r.0 ≡ err e) × (r.1.target ≡ disk.target)

after_cases :
    (disk s : Disk) (o : Option String) (next : Result PairingError (Unit {0}) × Disk)
    → s.target ≡ disk.target
    → (after_call o s next ≡ next) ⊎ Failed disk (after_call o s next)
after_cases disk s none next h = inl refl
after_cases disk s (some e) next h = inr (store e, refl, h)

either :
    (disk : Disk) {r next : Result PairingError (Unit {0}) × Disk} {done : Disk}
    → (r ≡ next) ⊎ Failed disk r
    → (next ≡ (ok tt, done)) ⊎ Failed disk next
    → (r ≡ (ok tt, done)) ⊎ Failed disk r
either disk (inr f) rest = inr f
either disk (inl e) (inl d) = inl (e ∙ d)
either disk (inl e) (inr f) = inr (subst (Failed disk) (sym e) f)

write_bytes_cases :
    (io : Outcomes) (bytes : List ℕ) (disk : Disk)
    → (write_bytes io bytes disk ≡ (ok tt, record { target = some bytes; temporary = none }))
      ⊎ Failed disk (write_bytes io bytes disk)
unfolding write_bytes
write_bytes_cases io bytes disk = either disk (after_cases disk disk io.create_error _ refl) (
    either disk
      (after_cases disk (record disk { temporary = some io.written_part }) io.write_error _ refl)
      (either disk (after_cases disk (record disk { temporary = some bytes }) io.sync_error _ refl)
        (either disk
          (after_cases disk (record disk { temporary = some bytes }) io.rename_error _ refl)
          (inl refl))))

module _ {A : Type 0} where
  abbrev pub IsValid : Change A → Type 0
  IsValid (saves_controller k) = IsArray 32 k.signing
  IsValid (saves a) = IsStored a
  IsValid (deletes id) = Unit {0}
  IsValid (sets id b) = IsArray 32 b.key.bytes

  abbrev pub apply : Change A → View A → View A
  apply (saves_controller k) v = record v { controller = some k }
  apply (saves a) v = record v { pairings = put a v.pairings }
  apply (deletes id) v = record v { pairings = remove id v.pairings }
  apply (sets id b) v = record v { pairings = set_broadcast id b v.pairings }

  -- A document that is read as such a view.
  Holds : Document A → View A → Type 0
  Holds doc v = (loaded doc.controller ≡ ok v.controller) × Reads doc.accessories v.pairings

module _ {A : Type 0} (j : Json A) where
  abbrev pub run : Outcomes → Change A → Disk → Result PairingError (Unit {0}) × Disk
  run io (saves_controller k) disk = save_controller j io k disk
  run io (saves a) disk = save_pairing j io a disk
  run io (deletes id) disk = delete_pairing j io id disk
  run io (sets id b) disk = save_broadcast_state j io id b disk

  -- What `load_controller` and `load_pairings` give.
  abbrev pub Shows : Disk → View A → Type 0
  Shows disk v =
      (load_controller j quiet disk ≡ ok v.controller)
      × (load_pairings j quiet disk ≡ ok v.pairings)

  read_Shows :
      (disk : Disk) (doc : Document A) (v : View A)
      → read_target j disk.target ≡ ok doc
      → Holds doc v
      → Shows disk v
  unfolding load_controller load_pairings read_doc Holds
  read_Shows disk doc v e h = (then_ok _ e h.0, then_ok _ e (Reads→collect h.1))

  Shows-read :
      (disk : Disk) (v : View A)
      → Shows disk v
      → (doc : Document A) × (read_target j disk.target ≡ ok doc) × Holds doc v
  unfolding load_controller load_pairings read_doc Holds
  Shows-read disk v h =
      let (doc, e, controller) = both_steps _ (read_target j disk.target) h.0 in
      let (doc', e', pairings) = both_steps _ (read_target j disk.target) h.1 in
      let same : doc' ≡ doc = ok-injective doc' doc (sym e' ∙ e) in
      (
        doc,
        e,
        (
          controller,
          collect→Reads doc.accessories (ap (λ d. collect d.accessories) (sym same) ∙ pairings),
        ),
      )

  -- Either the change is made, or a call failed and nothing changes.
  abbrev Ends : Disk → View A → Result PairingError (Unit {0}) × Disk → Type 0
  Ends disk v r = ((r.0 ≡ ok tt) × Shows r.1 v) ⊎ Failed disk r

  module _ (laws : JsonLaws j) (io : Outcomes) (disk : Disk) where
    written_Ends :
        (doc : Document A) (v : View A) (printed : Result String (List ℕ))
        → Holds doc v
        → j.to_vec_pretty (record doc { version = some 2 }) ≡ printed
        → Ends disk v (write_printed j io printed disk)
    unfolding Holds
    written_Ends doc v stuck h e = absurd (laws.ends (record doc { version = some 2 }) e)
    written_Ends doc v (err e) h p = inr (store e, refl, refl)
    written_Ends doc v (ok bytes) h e =
        let d = record doc { version = some 2 } in
        let back : read_target j (some bytes) ≡ ok d = rw (laws.reads d e) refl in
        elim (write_bytes_cases io bytes disk) [
          | inl done ↦
              subst (Ends disk v) (sym done) (
                inl
                  (refl, read_Shows (record { target = some bytes; temporary = none }) d v back h))
          | inr failed ↦ inr failed
        ]

    -- What a change makes of a document holds the view; where nothing is written, the document does.
    HoldsChanged : Document A → Option (Document A) → View A → Type 0
    HoldsChanged doc none v = Holds doc v
    HoldsChanged doc (some changed) v = Holds changed v

    changed_Ends :
        (doc : Document A) (v : View A) (o : Option (Document A))
        → read_target j disk.target ≡ ok doc
        → HoldsChanged doc o v
        → Ends disk v (write_changed j io o disk)
    unfolding HoldsChanged write_doc
    changed_Ends doc v none e h = inl (refl, read_Shows disk doc v e h)
    changed_Ends doc v (some changed) e h = written_Ends changed v _ h refl

    read_Ends :
        (doc : Document A) (v : View A) (change : Document A → Option (Document A))
        (o : Option String)
        → read_target j disk.target ≡ ok doc
        → HoldsChanged doc (change doc) v
        → Ends disk v (modify_read j io change (read_doc j o disk) disk)
    unfolding read_doc
    read_Ends doc v change (some e') e h = inr (store e', refl, refl)
    read_Ends doc v change none e h = rw e (changed_Ends doc v (change doc) e h)

    modify-Ends :
        (doc : Document A) (v : View A) (change : Document A → Option (Document A))
        → read_target j disk.target ≡ ok doc
        → HoldsChanged doc (change doc) v
        → Ends disk v (modify j io change disk)
    unfolding modify
    modify-Ends doc v change e h = read_Ends doc v change io.read_error e h

    -- The change of the broadcast state, by what becomes of the records.
    set_HoldsChanged :
        (doc : Document A) (v : View A) (kept : List (StoredAccessory A))
        (o : Option (List (AccessoryRecord A)))
        → loaded doc.controller ≡ ok v.controller
        → ReadsChanged doc.accessories kept o
        → HoldsChanged doc (changed_records doc o) (record v { pairings = kept })
    unfolding HoldsChanged Holds
    set_HoldsChanged doc v kept none c r = (c, r)
    set_HoldsChanged doc v kept (some rs) c r = (c, r)

    change_Ends :
        (change : Change A) (doc : Document A) (v : View A)
        → IsValid change
        → read_target j disk.target ≡ ok doc
        → Holds doc v
        → Ends disk (apply change v) (run io change disk)
    unfolding HoldsChanged Holds save_controller save_pairing delete_pairing save_broadcast_state
    change_Ends (saves_controller k) doc v valid e h =
        modify-Ends doc _ (λ d. some (record d { controller = some (controller_to_record k) })) e
          (then_ok _ (controller_from_record-controller_to_record k valid) refl, h.1)
    change_Ends (saves a) doc v valid e h =
        modify-Ends doc _
          (λ d. some (record d { accessories = put_record (accessory_to_record a) d.accessories }))
          e
          (
            h.0,
            Reads-put (accessory_to_record a) a (accessory_from_record-accessory_to_record a valid)
                h.1,
          )
    change_Ends (deletes id) doc v valid e h =
        modify-Ends doc _ (λ d. some (record d { accessories = retain_others id d.accessories })) e
          (h.0, Reads-remove id h.1)
    change_Ends (sets id b) doc v valid e h =
        modify-Ends doc _ (λ d. changed_records d (set_record id b d.accessories)) e
          (set_HoldsChanged doc v _ (set_record id b doc.accessories) h.0
            (Reads-set id b valid h.1))

    -- The file refines a controller and a list of accessories: a change of valid records ends
    -- well and the store then shows the changed list, or it ends with an error, at whichever
    -- call, and the file is as it was.
    pub run-Shows :
        (change : Change A) (v : View A)
        → IsValid change
        → Shows disk v
        → (((run io change disk).0 ≡ ok tt) × Shows (run io change disk).1 (apply change v))
          ⊎ ((e : PairingError) × ((run io change disk).0 ≡ err e)
              × ((run io change disk).1.target ≡ disk.target))
    run-Shows change v valid h =
        let (doc, e, holds) = Shows-read disk v h in change_Ends change doc v valid e holds
