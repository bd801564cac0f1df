-- ===== src/Tests/Flights.antt =====
-- Single flight with two requests for one key.
use distributed_caching.Base.{
  ℕ, ◌≡◌, ◌≢◌, ◌⊎◌, refl, true, [], ◌∷◌, none, some, lookup, insert, delete, string_keys, nat_keys,
}
use distributed_caching.Base.Int.{pos}
use distributed_caching.SingleFlight.{
  Outcome, Flights, finish_in_flight, get_or_create_in_flight, leader_response, waiter_response,
  closed_call, no_flights,
}
use distributed_caching.SingleFlight.Invariant.{is_closed}
use distributed_caching.SingleFlight.Safety.{
  one_leader, finish_never_panics, no_lost_wakeup, shared_answer, stop,
}
use distributed_caching.SingleFlight.Threads.{
  System, Reach, start, next, enter, leading, waiting, init, update, place,
}

abbrev fetched : Outcome
fetched = record { body = 104 ∷ 105 ∷ []; status_code = pos 200; err = none }

-- Request 0 leads, request 1 waits.
abbrev led : Flights
led = (get_or_create_in_flight "k" no_flights).2

abbrev one_leads : System
one_leads = record {
  flights = led;
  pc = update init.pc 0 (
      place "k" (get_or_create_in_flight "k" no_flights).0
        (get_or_create_in_flight "k" no_flights).1);
}

abbrev one_waits : System
one_waits = record {
  flights = (get_or_create_in_flight "k" led).2;
  pc =
      update one_leads.pc 1
        (place "k" (get_or_create_in_flight "k" led).0 (get_or_create_in_flight "k" led).1);
}

one_waits-Reach : Reach one_waits
one_waits-Reach = next 1 (next 0 start (enter "k" refl)) (enter "k" refl)

request_leads : one_waits.pc 0 ≡ leading "k" 0
unfolding get_or_create_in_flight lookup
request_leads = refl

request_waits : one_waits.pc 1 ≡ waiting "k" 0
unfolding get_or_create_in_flight lookup insert
request_waits = refl

one_leader_example : ◌≡◌ {A = ℕ} 0 0
one_leader_example = one_leader 0 0 "k" 0 0 one_waits-Reach request_leads request_leads

finish_never_panics_example : finish_in_flight "k" 0 fetched one_waits.flights ≢ none
finish_never_panics_example = finish_never_panics 0 "k" 0 fetched one_waits-Reach request_leads

no_lost_wakeup_example :
    ((j : ℕ) × (one_waits.pc j ≡ leading "k" 0)) ⊎ (is_closed 0 one_waits.flights ≡ true)
no_lost_wakeup_example = no_lost_wakeup 1 "k" 0 one_waits-Reach request_waits

-- The state after the leader finished.
abbrev finished : Flights
finished = record one_waits.flights {
  in_flight = delete "k" one_waits.flights.in_flight;
  calls = insert 0 (closed_call fetched) one_waits.flights.calls;
}

finishes : finish_in_flight "k" 0 fetched one_waits.flights ≡ some finished
unfolding finish_in_flight get_or_create_in_flight lookup insert
finishes = refl

found_closed : lookup 0 finished.calls ≡ some (closed_call fetched)
unfolding get_or_create_in_flight lookup insert
found_closed = refl

shared_answer_example :
    ((closed_call fetched).done ≡ true)
    × (waiter_response (closed_call fetched) ≡ leader_response fetched)
shared_answer_example =
    shared_answer 0 "k" 0 fetched finished one_waits-Reach request_leads finishes stop
      (closed_call fetched) found_closed
