-- ===== src/Controller/Supervisor/Runs.antt =====
-- Concrete lives of the supervisor.
use hap_rust.Common.{ℕ, ◌≡◌, refl, ◌↔◌, List, [], ◌∷◌, map, none, some, true, false, pos, arith}
use hap_rust.Model.Format.{bool, int, float, bool_value, int_value, float_value}
use hap_rust.Model.Json.{number, read_entries}
use hap_rust.Model.Json.Runs.{natural, crates}
use hap_rust.Controller.Supervisor.{
  Pump, build, begin, closed, numbered, on_closed, on_reconnected, note_config, reconnect_loop,
  declared, on_body, connected, disconnected, reconnecting,
}
use hap_rust.Controller.Supervisor.Events.{
  Report, of_one, of_natural, of_whole, entry, plain_event, on_body-read_entries,
}
use hap_rust.Controller.Supervisor.Refresh.{Steady, needs_refresh_iff}
use hap_rust.Controller.Supervisor.Healing.{reconnect_loop-on_closed}

abbrev start : Pump ℕ
start = build 1

-- Two outages, after which the accessory has config number 6, and then 7.
abbrev first_return : Pump ℕ
first_return = on_reconnected (record { session = 2; config_number = some 6 }) (on_closed start)

abbrev second_return : Pump ℕ
second_return =
    on_reconnected (record { session = 3; config_number = some 7 }) (on_closed first_return)

needs_refresh_iff_example : (second_return.needs_refresh ≡ false) ↔ Steady (7 ∷ 6 ∷ [])
unfolding on_closed on_reconnected note_config
needs_refresh_iff_example =
    needs_refresh_iff crates.as_float start refl
      (numbered 1 3 7 refl (closed refl (numbered 1 2 6 refl (closed refl begin))))

-- The first number raises no flag, whatever it is.
first_number_run : first_return.needs_refresh ≡ false
unfolding on_closed on_reconnected note_config
first_number_run = refl

abbrev subscribed : Pump ℕ
subscribed = record start {
  subscribed = (1, 10) ∷ (1, 11) ∷ [];
  formats = ((1, 10), bool) ∷ ((1, 11), int) ∷ ((1, 12), float) ∷ [];
}

abbrev after : Pump ℕ
after = reconnect_loop 1 2 (record { session = 9; config_number = some 7 }) (on_closed subscribed)

reconnect_loop-on_closed_example :
    (after.current ≡ 9)
    × (after.attempt ≡ none)
    × (after.slept ≡ 1 ∷ 2 ∷ [])
    × (after.states
        ≡ connected
          ∷ disconnected
          ∷ reconnecting 1
          ∷ reconnecting 2
          ∷ reconnecting 3
          ∷ connected
          ∷ [])
    × (after.asked ≡ (9, (1, 10)) ∷ (9, (1, 11)) ∷ [])
reconnect_loop-on_closed_example = reconnect_loop-on_closed 9 (some 7) 2 subscribed (omega arith)

-- The first is written as 1.
abbrev reports : List (Report crates)
reports =
    ((1, 10), bool_value true, number (natural 1))
    ∷ ((1, 11), int_value (pos 4), number (natural 4))
    ∷ ((1, 12), float_value 3, number (natural 3))
    ∷ []

on_body-read_entries_example :
    (on_body crates.as_float (read_entries crates (map (entry crates) reports)) subscribed).sent
    ≡ map (plain_event crates) reports
unfolding declared
on_body-read_entries_example = on_body-read_entries crates subscribed reports (
  (bool, refl, of_one (natural 1) refl),
  (
    (int, refl, of_natural (natural 4) 4 refl (omega arith)),
    ((float, refl, of_whole (natural 3) 3 refl), tt),
  ),
)
