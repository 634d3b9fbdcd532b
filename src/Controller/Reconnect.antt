-- ===== src/Controller/Reconnect.antt =====
-- crates/hap-controller/src/reconnect.rs: how a foreground request lives through a reconnect. A session is
-- known by a number, as an `Arc` is by its address; what the timed calls bring is an argument.
pub mod Retry
use hap_rust.Common.{
  ℕ, ◌-◌, ◌^◌, List, [], ◌∷◌, Option, none, some, Result, ok, err, stuck, Bool, true, false, not,
  min, max, ltb, ◌==◌, if◌then◌else◌,
}
use hap_rust.Transport.Types.{TransportError, io, connection_closed, session_closed, no_response}
use hap_rust.Controller.Types.{HapError, transport, connection_lost}

pub record SessionResponse : Type 0 where
  pub status : ℕ
  pub body : List ℕ

abbrev is_link_dead : TransportError → Bool
is_link_dead connection_closed = true
is_link_dead session_closed = true
is_link_dead no_response = true
is_link_dead io = true
is_link_dead other = false

abbrev pub is_session_dead : HapError → Bool
is_session_dead (transport e) = is_link_dead e
is_session_dead other = false

-- `1u64.checked_shl(n)`
abbrev checked_shl : ℕ → Option ℕ
checked_shl n = if ltb n 64 then some (2 ^ n) else none

abbrev unwrap_or : Option ℕ → ℕ → ℕ
unwrap_or none d = d
unwrap_or (some n) d = n

-- In seconds.
unfoldable pub backoff : (attempt : ℕ) → ℕ
backoff attempt = max (min (unwrap_or (checked_shl (attempt - 1)) 30) 30) 1

-- How the first attempt ends within the request's time.
pub data Attempt : Type 0 where
  finished : Result HapError SessionResponse → Attempt
  elapsed : Attempt

-- What a bounded wait for a new session brings: one was published, or the time was up.
pub data Change : Type 0 where
  published : (session : ℕ) → Change
  gone : Change

-- The answer, and the session that was asked a second time, if any.
pub record Outcome : Type 0 where
  pub answer : Result HapError SessionResponse
  pub retried : Option ℕ

module _ (ask : ℕ → Result HapError SessionResponse) where
  abbrev pub retry_on : ℕ → Outcome
  retry_on session = record { answer = ask session; retried = some session }

  abbrev pub lost : Outcome
  lost = record { answer = err connection_lost; retried = none }

  -- `fresh` is what the watch channel holds; the list is empty where the wait goes on.
  unfoldable pub wait_for_fresh_then_retry : (dead fresh : ℕ) → List Change → Outcome
  wait_for_fresh_then_retry dead fresh [] =
      if fresh == dead then record { answer = stuck; retried = none } else retry_on fresh
  wait_for_fresh_then_retry dead fresh (gone ∷ cs) = if fresh == dead then lost else retry_on fresh
  wait_for_fresh_then_retry dead fresh (published next ∷ cs) =
      let rest = wait_for_fresh_then_retry dead next cs in
      if fresh == dead then rest else retry_on fresh

  -- The session that is current when the attempt starts and when it has ended.
  unfoldable pub request : (session now : ℕ) → Attempt → List Change → Outcome
  unfolding wait_for_fresh_then_retry
  request session now (finished (ok r)) cs = record { answer = ok r; retried = none }
  request session now (finished (err e)) cs =
      if is_session_dead e
      then wait_for_fresh_then_retry session now cs
      else record { answer = err e; retried = none }
  request session now (finished stuck) cs = record { answer = stuck; retried = none }
  request session now elapsed cs = if now == session then lost else retry_on now
