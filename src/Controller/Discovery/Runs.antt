-- ===== src/Controller/Discovery/Runs.antt =====
-- Concrete searches. SHA-512 is replaced by the identity.
use hap_rust.Common.{
  ℕ, ◌≡◌, ◌≢◌, refl, List, [], ◌∷◌, none, some, Bool, true, false, inl, inr, arith, ltb, suc,
}
use hap_rust.Transport.Text.{to_ascii_lowercase}
use hap_rust.Controller.SetupPayload.{SetupPayload}
use hap_rust.Controller.Discovery.{
  Discovered, ip, ble, collect_until, exact, setup_hash, match_kind,
}
use hap_rust.Controller.Discovery.Sightings.{collect_until-take_through}
use hap_rust.Controller.Discovery.Matching.{match_kind-setup_hash}

abbrev named : List ℕ → Discovered
named s = ip (record { id = s; category = 5; setup_hash = none })

-- The test holds the second time it is called.
abbrev second : ℕ → Discovered → Bool × ℕ
second n d = (ltb 0 n, suc n)

-- `A`, `a`, `B` and `C`.
collect_until-take_through_example :
    collect_until second 0
      (named (b'A' ∷ []) ∷ named (b'a' ∷ []) ∷ named (b'B' ∷ []) ∷ named (b'C' ∷ []) ∷ [])
    ≡ named (b'A' ∷ []) ∷ named (b'B' ∷ []) ∷ []
unfolding to_ascii_lowercase
collect_until-take_through_example =
    collect_until-take_through second 0
      (named (b'A' ∷ []) ∷ named (b'a' ∷ []) ∷ named (b'B' ∷ []) ∷ named (b'C' ∷ []) ∷ [])

abbrev payload : SetupPayload
payload = record {
  setup_code = (b'1' ∷ b'1' ∷ b'1' ∷ b'2' ∷ b'2' ∷ b'3' ∷ b'3' ∷ b'3' ∷ []);
  category = 5;
  setup_id = some (b'7' ∷ b'O' ∷ b'S' ∷ b'X' ∷ []);
  flags = record { ip = true; ble = false; nfc = false };
}

abbrev sha512 : List ℕ → List ℕ
sha512 bs = bs

abbrev lamp : Discovered
lamp = ble (record {
  id = (b'a' ∷ b'a' ∷ b':' ∷ b'0' ∷ b'f' ∷ []);
  category = 5;
  setup_hash =
      some (
        setup_hash sha512 (b'7' ∷ b'O' ∷ b'S' ∷ b'X' ∷ []) (b'A' ∷ b'A' ∷ b':' ∷ b'0' ∷ b'F' ∷ []));
})

-- Its id is in lower case, and its hash is not that of either case.
abbrev other : Discovered
other = ip (record { id = b'a' ∷ []; category = 5; setup_hash = some (1 ∷ 2 ∷ 3 ∷ 4 ∷ []) })

abbrev seven : List ℕ
seven = b'7' ∷ b'O' ∷ b'S' ∷ b'X' ∷ []

other_differs : ◌≢◌ {A = List ℕ} seven (1 ∷ 2 ∷ 3 ∷ 4 ∷ [])
other_differs e = cc

match_kind-setup_hash_example :
    (match_kind sha512 payload lamp ≡ some exact) × (match_kind sha512 payload other ≡ none)
unfolding to_ascii_lowercase setup_hash
match_kind-setup_hash_example =
    match_kind-setup_hash sha512 payload seven lamp other (b'A' ∷ b'A' ∷ b':' ∷ b'0' ∷ b'F' ∷ [])
      (1 ∷ 2 ∷ 3 ∷ 4 ∷ []) refl refl
      (inr (
        refl,
        (
          inl (omega arith),
          (inl (omega arith), (inl (omega arith), (inl (omega arith), (inl (omega arith), tt)))),
        ),
      ))
      refl other_differs other_differs
