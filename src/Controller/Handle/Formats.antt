-- ===== src/Controller/Handle/Formats.antt =====
-- What the handle learns from a fetched tree.
use hap_rust.Common.{
  ℕ, ◌≡◌, refl, sym, ap, ◌∙◌, ◌⊎◌, inl, inr, List, [], ◌∷◌, ◌++◌, none, some, Result, ok, Bool,
  true, false, ◌==◌, ◌&&◌, ==_iff, ==_refl, Bool-cases, map,
}
use hap_rust.Model.Types.{ModelError}
use hap_rust.Model.Format.{CharFormat}
use hap_rust.Controller.Reconnect.{SessionResponse}
use hap_rust.Controller.Supervisor.{FormatMap, declared, same_id}
use hap_rust.Controller.Handle.{
  Characteristic, Service, Accessory, IpHandle, is_success, learn_characteristics, learn_services,
  learn, accessories, drop_stale,
}

-- The entry is in the list.
abbrev pub In : ((ℕ × ℕ) × CharFormat) → FormatMap → Type 0
In e [] = ⊥
In e (x ∷ xs) = (x ≡ e) ⊎ In e xs

-- The entries of a tree in its order.
abbrev entries_of_service : (aid : ℕ) → List Characteristic → FormatMap
entries_of_service aid cs = map (λ c. ((aid, c.iid), c.format)) cs

abbrev entries_of_accessory : (aid : ℕ) → List Service → FormatMap
entries_of_accessory aid [] = []
entries_of_accessory aid (s ∷ ss) =
    entries_of_service aid s.characteristics ++ entries_of_accessory aid ss

abbrev pub entries : List Accessory → FormatMap
entries [] = []
entries (a ∷ rest) = entries_of_accessory a.aid a.services ++ entries rest

-- Each entry is put in front of those before it.
abbrev push_all : FormatMap → FormatMap → FormatMap
push_all [] fs = fs
push_all (x ∷ xs) fs = push_all xs (x ∷ fs)

push_all-append : (xs ys fs : FormatMap) → push_all (xs ++ ys) fs ≡ push_all ys (push_all xs fs)
push_all-append [] ys fs = refl
push_all-append (x ∷ xs) ys fs = push_all-append xs ys (x ∷ fs)

learn_characteristics_lem :
    (aid : ℕ) (cs : List Characteristic) (fs : FormatMap)
    → learn_characteristics aid cs fs ≡ push_all (entries_of_service aid cs) fs
unfolding learn_characteristics
learn_characteristics_lem aid [] fs = refl
learn_characteristics_lem aid (c ∷ cs) fs = learn_characteristics_lem aid cs _

learn_services_lem :
    (aid : ℕ) (ss : List Service) (fs : FormatMap)
    → learn_services aid ss fs ≡ push_all (entries_of_accessory aid ss) fs
unfolding learn_services
learn_services_lem aid [] fs = refl
learn_services_lem aid (s ∷ ss) fs =
    learn_services_lem aid ss _
    ∙ ap (push_all (entries_of_accessory aid ss))
        (learn_characteristics_lem aid s.characteristics fs)
    ∙ sym (
        push_all-append (entries_of_service aid s.characteristics) (entries_of_accessory aid ss) fs)

learn_lem : (tree : List Accessory) (fs : FormatMap) → learn tree fs ≡ push_all (entries tree) fs
unfolding learn
learn_lem [] fs = refl
learn_lem (a ∷ rest) fs =
    learn_lem rest _
    ∙ ap (push_all (entries rest)) (learn_services_lem a.aid a.services fs)
    ∙ sym (push_all-append (entries_of_accessory a.aid a.services) (entries rest) fs)

In-push_all :
    (e : (ℕ × ℕ) × CharFormat) (xs fs : FormatMap) → In e xs ⊎ In e fs → In e (push_all xs fs)
In-push_all e [] fs (inl h) = elim h [ ]
In-push_all e [] fs (inr h) = h
In-push_all e (x ∷ xs) fs (inl (inl h)) = In-push_all e xs (x ∷ fs) (inr (inl h))
In-push_all e (x ∷ xs) fs (inl (inr h)) = In-push_all e xs (x ∷ fs) (inl h)
In-push_all e (x ∷ xs) fs (inr h) = In-push_all e xs (x ∷ fs) (inr (inr h))

push_all-In :
    (e : (ℕ × ℕ) × CharFormat) (xs fs : FormatMap) → In e (push_all xs fs) → In e xs ⊎ In e fs
push_all-In e [] fs h = inr h
push_all-In e (x ∷ xs) fs h = elim (push_all-In e xs (x ∷ fs) h) [
  | inl k ↦ inl (inr k)
  | inr k ↦ elim k [ inl i ↦ inl (inl i) | inr i ↦ inr i ]
]

both_true : (a b : Bool) → (a && b) ≡ true → (a ≡ true) × (b ≡ true)
both_true true b h = (refl, h)
both_true false b h = cc

same_id_refl : (k : ℕ × ℕ) → same_id k k ≡ true
same_id_refl (a, i) = rw (==_refl a, ==_refl i) refl

same_id→≡ : (k l : ℕ × ℕ) → same_id k l ≡ true → k ≡ l
same_id→≡ (a, i) (b, j) h =
    let (x, y) = both_true (a == b) (i == j) h in
    let e : a ≡ b = (==_iff a b).0 x in let e' : i ≡ j = (==_iff i j).0 y in rw (e, e') refl

apart : (k l : ℕ × ℕ) → same_id k l ≡ false → ¬ (k ≡ l)
apart k l h e = let yes : same_id k l ≡ true = rw (← e) (same_id_refl k) in cc

declared_lem :
    (fs : FormatMap) (id : ℕ × ℕ) (f : CharFormat)
    → In (id, f) fs
    → ((g : CharFormat) → In (id, g) fs → g ≡ f)
    → declared fs id ≡ some f
unfolding declared
declared_lem [] id f h only = elim h [ ]
declared_lem ((k, g) ∷ fs) id f h only = elim (Bool-cases (same_id k id)) [
  | inl same ↦ rw (same, only g (inl (ap (λ x. (x, g)) (same_id→≡ k id same)))) refl
  | inr other ↦ rw other (
      declared_lem fs id f
        (elim h [ inl e ↦ absurd (apart k id other (ap (λ x. x.0) e)) | inr later ↦ later ])
        (λ x i. only x (inr i)))
]

learnt :
    (tree : List Accessory) (id : ℕ × ℕ) (f : CharFormat)
    → In (id, f) (entries tree)
    → ((g : CharFormat) → In (id, g) (entries tree) → g ≡ f)
    → declared (learn tree []) id ≡ some f
learnt tree id f i only =
    ap (λ fs. declared fs id) (learn_lem tree [])
    ∙ declared_lem (push_all (entries tree) []) id f (In-push_all (id, f) (entries tree) [] (inl i))
        (λ g k.
          only g
            (elim (push_all-In (id, g) (entries tree) [] k) [ inl x ↦ x | inr x ↦ elim x [ ] ]))

drop_stale_lem :
    (b : Bool) (h : IpHandle) → h.needs_refresh ≡ b → (drop_stale h).needs_refresh ≡ false
drop_stale_lem true h e = rw e refl
drop_stale_lem false h e = rw e refl

module _ (parse_accessories : List ℕ → Result ModelError (List Accessory)) where
  -- A call of `accessories` that fetches, since no tree is cached or a refresh is asked for, and succeeds
  -- returns the parsed tree, caches it and takes the wish for a refresh back. Afterwards the format of each
  -- characteristic of the tree is known, whatever formats were known before, where no other one of the tree
  -- has its ids and another format.
  pub accessories-learns :
      (r : SessionResponse) (h : IpHandle) (tree : List Accessory)
      → (drop_stale h).accessories ≡ none
      → is_success r.status ≡ true
      → parse_accessories r.body ≡ ok tree
      → let out = accessories parse_accessories (ok r) h in
        (out.0 ≡ ok tree)
        × (out.1.accessories ≡ some tree)
        × (out.1.needs_refresh ≡ false)
        × ((id : ℕ × ℕ) (f : CharFormat)
            → In (id, f) (entries tree)
            → ((g : CharFormat) → In (id, g) (entries tree) → g ≡ f)
            → declared out.1.formats id ≡ some f)
  unfolding accessories
  accessories-learns r h tree cold good parsed =
      rw (cold, good, parsed)
        (refl, refl, drop_stale_lem h.needs_refresh h refl, λ id f i only. learnt tree id f i only)
