-- ===== src/Pairing/Store/Reading.antt =====
-- A list of records as the list of accessories that it is read as, and the operations on both.
use hap_rust.Common.{
  ℕ, ◌≡◌, refl, sym, ap, ◌∙◌, inl, inr, List, [], ◌∷◌, Option, none, some, ok, if◌then◌else◌,
  both_steps, then_ok, Bool-cases, ok-injective, ok_or,
}
use mathlib.Core.Path.{subst, ap₂}
use hap_rust.Crypto.PairVerify.{bytes_eq}
use hap_rust.Pairing.Types.{malformed}
use hap_rust.Pairing.Store.{
  StoredBroadcast, StoredTransport, ip, ble, StoredAccessory, AccessoryRecord, TransportRecord,
  ip_record, ble_record, maybe_stored, broadcast_record, accessory_from_record, stored_transport,
  decode_key_32, parse_device_id,
}
use hap_rust.Pairing.Store.Records.{IsArray, stored_broadcast-broadcast_record}
use hap_rust.Pairing.Store.File.{
  put_record, retain_others, with_broadcast, set_here, set_behind, set_record, collect,
}

module _ {A : Type 0} where
  -- The operations on a list of accessories.
  abbrev pub put : StoredAccessory A → List (StoredAccessory A) → List (StoredAccessory A)
  put a [] = a ∷ []
  put a (x ∷ xs) =
      if bytes_eq x.pairing.pairing_id a.pairing.pairing_id then a ∷ xs else x ∷ put a xs

  abbrev pub remove : List ℕ → List (StoredAccessory A) → List (StoredAccessory A)
  remove id [] = []
  remove id (x ∷ xs) =
      let rest = remove id xs in if bytes_eq x.pairing.pairing_id id then rest else x ∷ rest

  abbrev pub updated : StoredBroadcast → StoredTransport A → StoredTransport A
  updated b (ip addr) = ip addr
  updated b (ble device_id old) = ble device_id (some b)

  abbrev pub set_broadcast :
      List ℕ → StoredBroadcast → List (StoredAccessory A) → List (StoredAccessory A)
  set_broadcast id b [] = []
  set_broadcast id b (x ∷ xs) =
      if bytes_eq x.pairing.pairing_id id
      then record x { transport = updated b x.transport } ∷ xs
      else x ∷ set_broadcast id b xs

  id_kept :
      (r : AccessoryRecord A) {a : StoredAccessory A}
      → accessory_from_record r ≡ ok a
      → a.pairing.pairing_id ≡ r.id
  unfolding accessory_from_record
  id_kept r h =
      let (key, k, h') = both_steps _ (decode_key_32 r.ltpk_hex) h in
      let (t, l, e) = both_steps _ (stored_transport r.transport r.addr) h' in
      ap (λ x. x.pairing.pairing_id) (sym (ok-injective _ _ e))

  -- The records, and the accessories that they are read as.
  pub data Reads : List (AccessoryRecord A) → List (StoredAccessory A) → Type 0 where
    none_read : Reads [] []
    one_read :
        {r : AccessoryRecord A} {a : StoredAccessory A} {rs : List (AccessoryRecord A)}
        {kept : List (StoredAccessory A)}
        → accessory_from_record r ≡ ok a
        → Reads rs kept
        → Reads (r ∷ rs) (a ∷ kept)

  pub collect→Reads :
      (rs : List (AccessoryRecord A)) {kept : List (StoredAccessory A)}
      → collect rs ≡ ok kept
      → Reads rs kept
  unfolding collect
  collect→Reads [] h = subst (Reads []) (ok-injective _ _ h) none_read
  collect→Reads (r ∷ rs) h =
      let (a, p, h') = both_steps _ (accessory_from_record r) h in
      let (bs, q, e) = both_steps _ (collect rs) h' in
      subst (Reads (r ∷ rs)) (ok-injective _ _ e) (one_read p (collect→Reads rs q))

  pub Reads→collect :
      {rs : List (AccessoryRecord A)} {kept : List (StoredAccessory A)}
      → Reads rs kept
      → collect rs ≡ ok kept
  unfolding collect
  Reads→collect none_read = refl
  Reads→collect (one_read p t) = then_ok _ p (then_ok _ (Reads→collect t) refl)

  pub Reads-put :
      (r : AccessoryRecord A) (a : StoredAccessory A) {rs : List (AccessoryRecord A)}
      {kept : List (StoredAccessory A)}
      → accessory_from_record r ≡ ok a
      → Reads rs kept
      → Reads (put_record r rs) (put a kept)
  unfolding put_record
  Reads-put r a p none_read = one_read p none_read
  Reads-put r a p (one_read {r = x} {a = y} q t) =
      let same : bytes_eq y.pairing.pairing_id a.pairing.pairing_id ≡ bytes_eq x.id r.id =
        ap₂ bytes_eq (id_kept x q) (id_kept r p) in
      rw same (elim (Bool-cases (bytes_eq x.id r.id)) [
        | inl found_here ↦ rw found_here (one_read p t)
        | inr other ↦ rw other (one_read q (Reads-put r a p t))
      ])

  pub Reads-remove :
      (id : List ℕ) {rs : List (AccessoryRecord A)} {kept : List (StoredAccessory A)}
      → Reads rs kept
      → Reads (retain_others id rs) (remove id kept)
  unfolding retain_others
  Reads-remove id none_read = none_read
  Reads-remove id (one_read {r = x} {a = y} q t) =
      let same : bytes_eq y.pairing.pairing_id id ≡ bytes_eq x.id id =
        ap (λ k. bytes_eq k id) (id_kept x q) in
      rw same (elim (Bool-cases (bytes_eq x.id id)) [
        | inl gone ↦ rw gone (Reads-remove id t)
        | inr other ↦ rw other (one_read q (Reads-remove id t))
      ])

  -- What a change of the broadcast state means for a record's transport, and for the record.
  TransportUpdates :
      StoredBroadcast → Option A → StoredTransport A → Option (TransportRecord A) → Type 0
  TransportUpdates b legacy t none = updated b t ≡ t
  TransportUpdates b legacy t (some r) = stored_transport (some r) legacy ≡ ok (updated b t)

  Updates :
      StoredBroadcast → AccessoryRecord A → StoredAccessory A → Option (TransportRecord A) → Type 0
  Updates b x y none = updated b y.transport ≡ y.transport
  Updates b x y (some t) =
      accessory_from_record (record x { transport = some t })
      ≡ ok (record y { transport = updated b y.transport })

  transport_updates :
      (b : StoredBroadcast) (o : Option (TransportRecord A)) (legacy : Option A)
      {t : StoredTransport A}
      → IsArray 32 b.key.bytes
      → stored_transport o legacy ≡ ok t
      → TransportUpdates b legacy t (with_broadcast b o)
  unfolding stored_transport TransportUpdates
  transport_updates b (some (ip_record addr)) legacy k h =
      subst (λ t. updated b t ≡ t) (ok-injective (ip addr) _ h) refl
  transport_updates b (some (ble_record d old)) legacy k h =
      let (id, p, h') =
        both_steps _ (ok_or (parse_device_id d) (malformed "malformed BLE device id")) h in
      let (b', q, e) = both_steps _ (maybe_stored old) h' in
      subst
        (λ t.
          stored_transport (some (ble_record d (some (broadcast_record b)))) legacy
          ≡ ok (updated b t))
        (ok-injective (ble id b') _ e)
        (then_ok _ p (then_ok _ (then_ok _ (stored_broadcast-broadcast_record b k) refl) refl))
  transport_updates b none (some addr) k h =
      subst (λ t. updated b t ≡ t) (ok-injective (ip addr) _ h) refl
  transport_updates b none none k h = cc

  record-Updates :
      (b : StoredBroadcast) (x : AccessoryRecord A) (key : List ℕ) (t : StoredTransport A)
      (o : Option (TransportRecord A))
      → decode_key_32 x.ltpk_hex ≡ ok key
      → TransportUpdates b x.addr t o
      → Updates b x (record { pairing = record { pairing_id = x.id; ltpk = key }; transport = t }) o
  unfolding accessory_from_record TransportUpdates Updates
  record-Updates b x key t none p u = u
  record-Updates b x key t (some r) p u = then_ok _ p (then_ok _ u refl)

  updates :
      (b : StoredBroadcast) (x : AccessoryRecord A) {y : StoredAccessory A}
      → IsArray 32 b.key.bytes
      → accessory_from_record x ≡ ok y
      → Updates b x y (with_broadcast b x.transport)
  unfolding accessory_from_record
  updates b x k h =
      let (key, p, h') = both_steps _ (decode_key_32 x.ltpk_hex) h in
      let (t, l, e) = both_steps _ (stored_transport x.transport x.addr) h' in
      subst (λ y. Updates b x y (with_broadcast b x.transport)) (ok-injective _ _ e)
        (record-Updates b x key t (with_broadcast b x.transport) p
          (transport_updates b x.transport x.addr k l))

  abbrev pub ReadsChanged :
      List (AccessoryRecord A)
      → List (StoredAccessory A)
      → Option (List (AccessoryRecord A))
      → Type 0
  ReadsChanged rs kept none = Reads rs kept
  ReadsChanged rs kept (some changed) = Reads changed kept

  Reads-set_here :
      (b : StoredBroadcast) (x : AccessoryRecord A) (y : StoredAccessory A)
      {rs : List (AccessoryRecord A)} {kept : List (StoredAccessory A)}
      (o : Option (TransportRecord A))
      → accessory_from_record x ≡ ok y
      → Reads rs kept
      → Updates b x y o
      → ReadsChanged
          (x ∷ rs)
          (record y { transport = updated b y.transport } ∷ kept)
          (set_here x rs o)
  unfolding Updates
  Reads-set_here b x y none q t u =
      one_read (q ∙ ap (λ w. ok (record y { transport = w })) (sym u)) t
  Reads-set_here b x y (some r) q t u = one_read u t

  Reads-set_behind :
      (x : AccessoryRecord A) (y : StoredAccessory A) (rs : List (AccessoryRecord A))
      (kept : List (StoredAccessory A)) (o : Option (List (AccessoryRecord A)))
      → accessory_from_record x ≡ ok y
      → ReadsChanged rs kept o
      → ReadsChanged (x ∷ rs) (y ∷ kept) (set_behind x o)
  Reads-set_behind x y rs kept none q t = one_read q t
  Reads-set_behind x y rs kept (some changed) q t = one_read q t

  pub Reads-set :
      (id : List ℕ) (b : StoredBroadcast) {rs : List (AccessoryRecord A)}
      {kept : List (StoredAccessory A)}
      → IsArray 32 b.key.bytes
      → Reads rs kept
      → ReadsChanged rs (set_broadcast id b kept) (set_record id b rs)
  unfolding set_record
  Reads-set id b k none_read = none_read
  Reads-set id b k (one_read {r = x} {a = y} {rs = rs} {kept = kept} q t) =
      let same : bytes_eq y.pairing.pairing_id id ≡ bytes_eq x.id id =
        ap (λ i. bytes_eq i id) (id_kept x q) in
      rw same (elim (Bool-cases (bytes_eq x.id id)) [
        | inl here ↦
            rw here (Reads-set_here b x y (with_broadcast b x.transport) q t (updates b x k q))
        | inr other ↦ rw other (
            Reads-set_behind x y rs (set_broadcast id b kept) (set_record id b rs) q
              (Reads-set id b k t))
      ])
