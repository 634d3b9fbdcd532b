-- ===== src/Controller/Supervisor.antt =====
-- crates/hap-controller/src/handle.rs: the task that `IpHandle::build` spawns. It drains the events of the
-- current session and, once that is dead, reconnects. Each change of its state is an operation here; the
-- body of an event is given by what `parse_read_response` makes of it.
pub mod Events
pub mod Refresh
pub mod Healing
mod Runs
use hap_rust.Common.{
  ℕ, zero, suc, ◌+◌, ◌%◌, ◌^◌, ◌≡◌, List, [], ◌∷◌, ◌++◌, Option, none, some, Result, ok, Bool, true,
  false, not, ltb, ◌==◌, ◌&&◌, if◌then◌else◌, map, ℤ, pos, negsuc,
}
use hap_rust.Model.Types.{ModelError}
use hap_rust.Model.Format.{
  CharFormat, bool, int, float, CharValue, bool_value, int_value, uint_value, float_value,
}
use hap_rust.Controller.Reconnect.{backoff}

pub data ConnectionState : Type 0 where
  connected disconnected : ConnectionState
  reconnecting : (attempt : ℕ) → ConnectionState

pub record Reconnected : Type 0 where
  pub session : ℕ
  pub config_number : Option ℕ

pub record CharacteristicEvent (F : Type 0) : Type 0 where
  pub aid : ℕ
  pub iid : ℕ
  pub value : CharValue F

abbrev pub nonzero : ℤ → Bool
nonzero (pos n) = not (n == 0)
nonzero (negsuc n) = true

-- `i64::try_from(n).map_or(CharValue::Uint(n), CharValue::Int)`
unfoldable pub int_or_uint : {F : Type 0} → ℕ → CharValue F
int_or_uint n = if ltb n (2 ^ 63) then int_value (pos n) else uint_value n

-- A pair of ids, and a request that was sent on a session for such a pair.
abbrev pub same_id : (ℕ × ℕ) → (ℕ × ℕ) → Bool
same_id (a, i) (b, j) = (a == b) && (i == j)

-- `as_f64` is the conversion `n as f64`.
module _ {F : Type 0} (as_f64 : ℤ → F) where
  unfoldable pub coerce_to_format : CharValue F → CharFormat → CharValue F
  unfolding int_or_uint
  coerce_to_format (uint_value n) bool = bool_value (not (n == 0))
  coerce_to_format (int_value n) bool = bool_value (nonzero n)
  coerce_to_format (uint_value n) int = int_or_uint n
  coerce_to_format (uint_value n) float = float_value (as_f64 (pos n))
  coerce_to_format (int_value n) float = float_value (as_f64 n)
  coerce_to_format value other = value

-- `FormatMap`
abbrev pub FormatMap : Type 0
FormatMap = List ((ℕ × ℕ) × CharFormat)

unfoldable pub declared : FormatMap → (ℕ × ℕ) → Option CharFormat
declared [] id = none
declared ((k, f) ∷ fs) id = if same_id k id then some f else declared fs id

-- `last_cn.is_some() && last_cn != Some(new_cn)`
abbrev pub differs : Option ℕ → ℕ → Bool
differs none n = false
differs (some m) n = not (m == n)

-- The set of ids.
unfoldable pub insert_id : (ℕ × ℕ) → List (ℕ × ℕ) → List (ℕ × ℕ)
insert_id id [] = id ∷ []
insert_id id (k ∷ ks) = if same_id k id then k ∷ ks else k ∷ insert_id id ks

unfoldable pub remove_id : (ℕ × ℕ) → List (ℕ × ℕ) → List (ℕ × ℕ)
remove_id id [] = []
remove_id id (k ∷ ks) = if same_id k id then ks else k ∷ remove_id id ks

-- What the task holds and what it shares with the handle, with the states, the events, the waits and the
-- requests so far. It has a number of an attempt where it is without a session.
pub record Pump (F : Type 0) : Type 0 where
  pub current : ℕ
  pub attempt : Option ℕ
  pub last_cn : Option ℕ
  pub needs_refresh : Bool
  pub formats : FormatMap
  pub subscribed : List (ℕ × ℕ)
  pub states : List ConnectionState
  pub sent : List (CharacteristicEvent F)
  pub slept : List ℕ
  pub asked : List (ℕ × (ℕ × ℕ))

-- The start of the task, and of each round of its loop.
abbrev pub serving : {F : Type 0} → Pump F → Pump F
serving p = record p { attempt = none; states = p.states ++ connected ∷ [] }

abbrev pub build : {F : Type 0} → (session : ℕ) → Pump F
build session = serving (record {
  current = session;
  attempt = none;
  last_cn = none;
  needs_refresh = false;
  formats = [];
  subscribed = [];
  states = [];
  sent = [];
  slept = [];
  asked = [];
})

module _ {F : Type 0} where
  -- The channel of events is closed: the first attempt begins.
  unfoldable pub on_closed : Pump F → Pump F
  on_closed p = record p {
    attempt = some 1;
    states = p.states ++ disconnected ∷ reconnecting 1 ∷ [];
  }

  -- An attempt fails: the task sleeps, and the next one begins. The number is a `u32`.
  unfoldable pub on_failed : (attempt : ℕ) → Pump F → Pump F
  on_failed n p = record p {
    attempt = some ((n + 1) % 2 ^ 32);
    slept = p.slept ++ backoff n ∷ [];
    states = p.states ++ reconnecting ((n + 1) % 2 ^ 32) ∷ [];
  }

  unfoldable pub note_config : Option ℕ → Pump F → Pump F
  note_config none p = p
  note_config (some n) p = record p {
    last_cn = some n;
    needs_refresh = if differs p.last_cn n then true else p.needs_refresh;
  }

  -- The requests go out in the order in which the set of ids lists them.
  abbrev pub resubscribe : (session : ℕ) → Pump F → Pump F
  resubscribe s p = record p { asked = p.asked ++ map (λ id. (s, id)) p.subscribed }

  unfoldable pub on_reconnected : Reconnected → Pump F → Pump F
  unfolding note_config
  on_reconnected rc p =
      let p' = resubscribe rc.session (note_config rc.config_number p) in
      serving (record p' { current = rc.session })

  -- The loop of attempts, from the given one on: so many fail, and the next one brings a session.
  unfoldable pub reconnect_loop : (attempt failures : ℕ) → Reconnected → Pump F → Pump F
  unfolding on_failed on_reconnected
  reconnect_loop n zero rc p = on_reconnected rc p
  reconnect_loop n (suc k) rc p = reconnect_loop ((n + 1) % 2 ^ 32) k rc (on_failed n p)

  -- A subscription of the handle that the accessory has accepted, and the end of one.
  unfoldable pub on_subscribed : (ℕ × ℕ) → Pump F → Pump F
  unfolding insert_id
  on_subscribed id p = record p { subscribed = insert_id id p.subscribed }

  unfoldable pub on_unsubscribed : (ℕ × ℕ) → Pump F → Pump F
  unfolding remove_id
  on_unsubscribed id p = record p { subscribed = remove_id id p.subscribed }

  module _ (as_f64 : ℤ → F) where
    abbrev pub typed : Option CharFormat → CharValue F → CharValue F
    typed none v = v
    typed (some f) v = coerce_to_format as_f64 v f

    abbrev pub event_of : FormatMap → ((ℕ × ℕ) × CharValue F) → CharacteristicEvent F
    event_of fs ((a, i), v) = record { aid = a; iid = i; value = typed (declared fs (a, i)) v }

    -- The body of an event, where it decodes.
    unfoldable pub on_body : Result ModelError (List ((ℕ × ℕ) × CharValue F)) → Pump F → Pump F
    on_body (ok reports) p = record p { sent = p.sent ++ map (event_of p.formats) reports }
    on_body _ p = p

    -- A life of the task between two calls of `accessories`, with the config numbers that its reconnects
    -- brought, the newest first.
    pub data Run (p : Pump F) : List ℕ → Pump F → Type 0 where
      begin : Run p [] p
      body :
          {ns : List ℕ} {q : Pump F} (reports : Result ModelError (List ((ℕ × ℕ) × CharValue F)))
          → q.attempt ≡ none
          → Run p ns q
          → Run p ns (on_body reports q)
      closed : {ns : List ℕ} {q : Pump F} → q.attempt ≡ none → Run p ns q → Run p ns (on_closed q)
      failed :
          {ns : List ℕ} {q : Pump F} (n : ℕ)
          → q.attempt ≡ some n
          → Run p ns q
          → Run p ns (on_failed n q)
      returned :
          {ns : List ℕ} {q : Pump F} (n session : ℕ)
          → q.attempt ≡ some n
          → Run p ns q
          → Run p ns (on_reconnected (record { session = session; config_number = none }) q)
      numbered :
          {ns : List ℕ} {q : Pump F} (n session cn : ℕ)
          → q.attempt ≡ some n
          → Run p ns q
          → Run p
              (cn ∷ ns)
              (on_reconnected (record { session = session; config_number = some cn }) q)
      subscribe :
          {ns : List ℕ} {q : Pump F} (id : ℕ × ℕ) → Run p ns q → Run p ns (on_subscribed id q)
      unsubscribe :
          {ns : List ℕ} {q : Pump F} (id : ℕ × ℕ) → Run p ns q → Run p ns (on_unsubscribed id q)
