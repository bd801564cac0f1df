-- ===== src/SingleFlight/Safety.antt =====
-- What single flight promises in every interleaving of gateway/singleflight.go.
use distributed_caching.Base.{
  ℕ, true, ◌≡◌, ◌≢◌, ◌⊎◌, sym, subst, String, none, some, lookup, nat_keys, string_keys, arith,
  lookup-insert, Option-cases, inl, inr,
}
use distributed_caching.SingleFlight.{
  Flights, InFlightCall, Outcome, leader_response, waiter_response, get_or_create_in_flight,
  finish_in_flight, open_call, closed_call,
}
use distributed_caching.SingleFlight.Threads.{
  leading, waiting, answered, System, update, Step, enter, finish, wake, give_up, Reach,
}
use distributed_caching.SingleFlight.Invariant.{
  Inv, Step-Inv, Reach-Inv, finish-total, finish_leaves, is_closed,
}

-- In a reachable state, two requests that lead a call of the same key are the same request.
pub one_leader :
    {s : System} (i j : ℕ) (k : String) (c d : ℕ)
    → Reach s
    → s.pc i ≡ leading k c
    → s.pc j ≡ leading k d
    → i ≡ j
one_leader {s} i j k c d r h g =
    let inv = Reach-Inv r in
    let same : c ≡ d = cc (inv.led i k c h, inv.led j k d g) in
    (inv.unique i j k k c h (subst (λ x. s.pc j ≡ leading k x) (sym same) g)).0

-- In a reachable state, the leader of a call can finish it with any outcome: the call exists and
-- its channel is not yet closed.
pub finish_never_panics :
    {s : System} (i : ℕ) (k : String) (c : ℕ) (r : Outcome)
    → Reach s
    → s.pc i ≡ leading k c
    → finish_in_flight k c r s.flights ≢ none
finish_never_panics {s} i k c r reach h = λ e. cc (finish-total s (Reach-Inv reach) i k c r h, e)

-- In a reachable state, for a request that waits on a call of a key, either some request leads
-- that call or the channel of the call is closed.
pub no_lost_wakeup :
    {s : System} (i : ℕ) (k : String) (c : ℕ)
    → Reach s
    → s.pc i ≡ waiting k c
    → ((j : ℕ) × (s.pc j ≡ leading k c)) ⊎ (is_closed c s.flights ≡ true)
no_lost_wakeup i k c r h =
    let inv = Reach-Inv r in
    elim (inv.awaited i k c h) [ inl there ↦ inl (inv.leader k c there) | inr closed ↦ inr closed ]

-- Any number of steps.
pub data Steps (s : System) : System → Type 0 where
  stop : Steps s s
  more : {t u : System} (i : ℕ) → Steps s t → Step t i u → Steps s u

Step-closed :
    {s : System} {i : ℕ} {t : System} (c : ℕ) (r : Outcome)
    → Step s i t
    → Inv s
    → lookup c s.flights.calls ≡ some (closed_call r)
    → lookup c t.flights.calls ≡ some (closed_call r)
unfolding get_or_create_in_flight
Step-closed {s} c r (enter k at) inv h = elim (Option-cases (lookup k s.flights.in_flight)) [
  | inl free ↦
      rw (free, get_or_create_in_flight)
        (ground (
          arith,
          lookup-insert s.flights.next_call c open_call s.flights.calls,
          inv.fresh c (closed_call r),
        ))
  | inr (d, there) ↦ rw (there, get_or_create_in_flight) h
]
Step-closed {s} {i} c r (finish k d q flights at e) inv h =
    let same = finish_leaves s inv i k d q flights at e in
    subst (λ (f : Flights). lookup c f.calls ≡ some (closed_call r)) same
      (ground (arith, lookup-insert d c (closed_call q) s.flights.calls, inv.open_led i k d at))
Step-closed c r (wake k d x at there closed) inv h = h
Step-closed c r (give_up k d at) inv h = h

Steps-closed :
    {s t : System} (c : ℕ) (r : Outcome)
    → Steps s t
    → Inv s
    → lookup c s.flights.calls ≡ some (closed_call r)
    → Inv t × (lookup c t.flights.calls ≡ some (closed_call r))
Steps-closed c r stop inv h = (inv, h)
Steps-closed c r (more i steps st) inv h =
    let (keeps, there) = Steps-closed c r steps inv h in
    (Step-Inv st keeps, Step-closed c r st keeps there)

-- If a reachable state has request i leading call c of key k, and i finishes it with an outcome,
-- then after any further steps of any requests the call c, if it is found, is closed, and a
-- request that wakes on it is answered what the leader is answered.
pub shared_answer :
    {s u : System} (i : ℕ) (k : String) (c : ℕ) (r : Outcome) (flights : Flights)
    → Reach s
    → s.pc i ≡ leading k c
    → finish_in_flight k c r s.flights ≡ some flights
    → Steps (record { flights = flights; pc = update s.pc i (answered (leader_response r)) }) u
    → (x : InFlightCall) → lookup c u.flights.calls ≡ some x
    → (x.done ≡ true) × (waiter_response x ≡ leader_response r)
unfolding waiter_response leader_response
shared_answer {s} i k c r flights reach at e steps x there =
    let inv = Reach-Inv reach in
    let keeps = Step-Inv (finish k c r flights at e) inv in
    let closed =
      subst (λ (f : Flights). lookup c f.calls ≡ some (closed_call r))
        (finish_leaves s inv i k c r flights at e)
        (ground (arith, lookup-insert c c (closed_call r) s.flights.calls)) in
    let last = (Steps-closed c r steps keeps closed).1 in ground (arith, last)
