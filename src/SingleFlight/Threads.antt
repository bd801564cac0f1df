-- ===== src/SingleFlight/Threads.antt =====
-- Any number of requests in `handleBackendSingleFlight` of gateway/singleflight.go, interleaved.
use distributed_caching.Base.{
  ℕ, Bool, true, false, ◌≡◌, String, some, if◌then◌else◌, lookup, nat_keys, ◌==◌,
}
use distributed_caching.SingleFlight.{
  Flights, InFlightCall, Outcome, Response, get_or_create_in_flight, finish_in_flight,
  waiter_response, leader_response, error_response, no_flights,
}

-- Where a request stands.
pub data Pc : Type 0 where
  idle : Pc
  leading : String → ℕ → Pc  -- fetches, for the key and the call
  waiting : String → ℕ → Pc  -- in the `select`
  answered : Response → Pc

pub record System : Type 0 where
  pub flights : Flights
  pub pc : ℕ → Pc

abbrev pub update : (ℕ → Pc) → ℕ → Pc → ℕ → Pc
update f i p j = if i == j then p else f j

-- The place of a request after `getOrCreateInFlight`.
abbrev pub place : String → ℕ → Bool → Pc
place key call true = leading key call
place key call false = waiting key call

-- One step of request `i`. The outcome of a fetch and the end of a request's context are open.
pub data Step (s : System) (i : ℕ) : System → Type 0 where
  enter :
      (key : String)
      → s.pc i ≡ idle
      → Step s i (record {
        flights = (get_or_create_in_flight key s.flights).2;
        pc = update s.pc i (
            place key
              (get_or_create_in_flight key s.flights).0
              (get_or_create_in_flight key s.flights).1);
      })
  finish :
      (key : String) (call : ℕ) (r : Outcome) (flights : Flights)
      → s.pc i ≡ leading key call
      → finish_in_flight key call r s.flights ≡ some flights
      → Step s i (record { flights = flights; pc = update s.pc i (answered (leader_response r)) })
  wake :
      (key : String) (call : ℕ) (c : InFlightCall)
      → s.pc i ≡ waiting key call
      → lookup call s.flights.calls ≡ some c
      → c.done ≡ true
      → Step s i (record s { pc = update s.pc i (answered (waiter_response c)) })
  give_up :
      (key : String) (call : ℕ)
      → s.pc i ≡ waiting key call
      → Step s i (record s { pc = update s.pc i (answered (error_response 504)) })

abbrev pub init : System
init = record { flights = no_flights; pc = λ _. idle }

pub data Reach : System → Type 0 where
  start : Reach init
  next : {s t : System} (i : ℕ) → Reach s → Step s i t → Reach t
