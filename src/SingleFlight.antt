-- ===== src/SingleFlight.antt =====
-- gateway/singleflight.go: requests for one key within a gateway share one call of the backend. The
-- shared objects are a heap of `inFlightCall`s and the map from keys to them; `inFlightMu` makes
-- each operation one step. A closed channel `done` is a flag.
pub mod Threads
pub mod Invariant
pub mod Safety
use distributed_caching.Base.{
  ℕ, suc, Bool, true, false, String, List, [], ◌∷◌, Option, none, some, lookup, insert, delete,
  if◌then◌else◌, nat_keys, string_keys,
}
use distributed_caching.Base.Int.{ℤ, pos}
use distributed_caching.Cache.{Bytes}

pub record InFlightCall : Type 0 where
  pub done : Bool  -- the channel is closed
  pub bytes : Bytes
  pub status_code : ℤ
  pub err : Option String

pub record Flights : Type 0 where
  pub in_flight : List (String × ℕ)
  pub calls : List (ℕ × InFlightCall)
  pub next_call : ℕ  -- where the next call is allocated

abbrev pub no_flights : Flights
no_flights = record { in_flight = []; calls = []; next_call = 0 }

-- `&inFlightCall{done: make(chan struct{})}`
abbrev pub open_call : InFlightCall
open_call = record { done = false; bytes = []; status_code = pos 0; err = none }

-- The call, whether the caller leads it, and the new state.
unfoldable pub get_or_create_in_flight : String → Flights → ℕ × Bool × Flights
get_or_create_in_flight key s = elim (lookup key s.in_flight) [
  | some call ↦ (call, false, s)
  | none ↦ (
    s.next_call,
    true,
    record {
      in_flight = insert key s.next_call s.in_flight;
      calls = insert s.next_call open_call s.calls;
      next_call = suc s.next_call;
    },
  )
]

-- What a fetch returned: body, status code and error.
pub record Outcome : Type 0 where
  pub body : Bytes
  pub status_code : ℤ
  pub err : Option String

abbrev pub closed_call : Outcome → InFlightCall
closed_call r = record { done = true; bytes = r.body; status_code = r.status_code; err = r.err }

-- `none` is a panic: a nil pointer, or the close of a closed channel.
unfoldable pub finish_in_flight : String → ℕ → Outcome → Flights → Option Flights
finish_in_flight key call r s = elim (lookup call s.calls) [
  | none ↦ none
  | some c ↦
      if c.done
      then none
      else some (record s {
        in_flight = delete key s.in_flight;
        calls = insert call (closed_call r) s.calls;
      })
]

-- What a request is answered.
pub record Response : Type 0 where
  pub status : ℤ
  pub body : Bytes

-- `http.Error` with a status; its text is left aside.
abbrev pub error_response : ℕ → Response
error_response status = record { status = pos status; body = [] }

-- The answer to a request that waited until the channel was closed.
unfoldable pub waiter_response : InFlightCall → Response
waiter_response c = elim c.err [
  | some _ ↦ error_response 502
  | none ↦ record { status = c.status_code; body = c.bytes }
]

-- The answer to the request that led the call.
unfoldable pub leader_response : Outcome → Response
leader_response r = elim r.err [
  | some _ ↦ error_response 502
  | none ↦ record { status = r.status_code; body = r.body }
]
