-- ===== src/SingleFlight/Invariant.antt =====
-- Who leads and who waits: true at the start and kept by every step.
use distributed_caching.Base.{
  ℕ, suc, ◌<◌, Bool, true, false, ◌≡◌, ◌⊎◌, refl, sym, subst, ◌∙◌, String, none, some, lookup,
  insert, delete, nat_keys, string_keys, ◌==◌, arith, lookup-insert, lookup-delete, eq_iff,
  Option-cases, Bool-cases, inl, inr,
}
use distributed_caching.SingleFlight.{
  Flights, InFlightCall, Outcome, Response, leader_response, get_or_create_in_flight,
  finish_in_flight, open_call, closed_call,
}
use distributed_caching.SingleFlight.Threads.{
  Pc, idle, leading, waiting, answered, System, update, Step, enter, finish, wake, give_up, init,
  Reach, start, next,
}

-- The channel of a call is closed.
unfoldable pub is_closed : ℕ → Flights → Bool
is_closed c s = elim (lookup c s.calls) [ none ↦ false | some x ↦ x.done ]

pub record Inv (s : System) : Type 0 where
  -- A leader's call is the one of its key, and its channel is open.
  pub led :
      (i : ℕ) (k : String) (c : ℕ) → s.pc i ≡ leading k c → lookup k s.flights.in_flight ≡ some c
  pub open_led :
      (i : ℕ) (k : String) (c : ℕ)
      → s.pc i ≡ leading k c
      → lookup c s.flights.calls ≡ some open_call
  -- A key with a call has a request that leads it.
  pub leader :
      (k : String) (c : ℕ)
      → lookup k s.flights.in_flight ≡ some c
      → (i : ℕ) × (s.pc i ≡ leading k c)
  pub unique :
      (i j : ℕ) (k l : String) (c : ℕ)
      → s.pc i ≡ leading k c
      → s.pc j ≡ leading l c
      → (i ≡ j) × (k ≡ l)
  -- Who waits, waits for a call that is open and led, or that is closed.
  pub awaited :
      (i : ℕ) (k : String) (c : ℕ)
      → s.pc i ≡ waiting k c
      → (lookup k s.flights.in_flight ≡ some c) ⊎ (is_closed c s.flights ≡ true)
  pub fresh :
      (c : ℕ) (x : InFlightCall) → lookup c s.flights.calls ≡ some x → c < s.flights.next_call

init-Inv : Inv init
unfolding lookup
init-Inv = record {
  led = λ i k c h. cc;
  open_led = λ i k c h. cc;
  leader = λ k c h. cc;
  unique = λ i j k l c h g. cc;
  awaited = λ i k c h. cc;
  fresh = λ c x h. cc;
}

module _ (s : System) (inv : Inv s) (i : ℕ) where
  open inv use {led, open_led, leader, unique, awaited, fresh}

  -- A request that joins a call.
  join-Inv :
      (k : String) (c : ℕ)
      → s.pc i ≡ idle
      → lookup k s.flights.in_flight ≡ some c
      → Inv (record s { pc = update s.pc i (waiting k c) })
  join-Inv k c at there = record {
    led = λ j l d h. ground (arith, led j l d);
    open_led = λ j l d h. ground (arith, open_led j l d);
    leader = λ l d h. let (j, leads) = leader l d h in (j, ground arith);
    unique = λ a b l m d h g. ground (arith, unique a b l m d);
    awaited = λ j l d h. ground (arith, awaited j l d);
    fresh = fresh;
  }

  closed-lt : (c : ℕ) → is_closed c s.flights ≡ true → c < s.flights.next_call
  unfolding is_closed
  closed-lt c h = elim (Option-cases (lookup c s.flights.calls)) [
    | inl absent ↦ ground arith
    | inr (x, there) ↦ fresh c x there
  ]

  -- A request that leads a new call.
  lead-Inv :
      (k : String)
      → s.pc i ≡ idle
      → lookup k s.flights.in_flight ≡ none
      → Inv (record {
        flights = record {
          in_flight = insert k s.flights.next_call s.flights.in_flight;
          calls = insert s.flights.next_call open_call s.flights.calls;
          next_call = suc s.flights.next_call;
        };
        pc = update s.pc i (leading k s.flights.next_call);
      })
  unfolding is_closed
  lead-Inv k at free = record {
    led = λ j l d h.
        ground
          (arith, led j l d, lookup-insert k l s.flights.next_call s.flights.in_flight, eq_iff k l);
    open_led = λ j l d h. ground (
      arith,
      open_led j l d,
      fresh d,
      lookup-insert s.flights.next_call d open_call s.flights.calls,
    );
    leader = λ l d h. elim (Bool-cases (k == l)) [
      | inl same ↦
          (i, ground (arith, lookup-insert k l s.flights.next_call s.flights.in_flight, eq_iff k l))
      | inr other ↦
          let (j, leads) = leader l d (
            ground
              (arith, lookup-insert k l s.flights.next_call s.flights.in_flight, eq_iff k l)) in
          (j, ground arith)
    ];
    unique = λ a b l m d h g.
        ground (arith, unique a b l m d, fresh d open_call, open_led a l d, open_led b m d);
    awaited = λ j l d h. ground (
      arith,
      awaited j l d,
      lookup-insert k l s.flights.next_call s.flights.in_flight,
      eq_iff k l,
      closed-lt d,
      lookup-insert s.flights.next_call d open_call s.flights.calls,
    );
    fresh = λ d x h.
        ground (arith, fresh d x, lookup-insert s.flights.next_call d open_call s.flights.calls);
  }

  -- A request that leaves the `select`.
  leave-Inv :
      (k : String) (c : ℕ) (p : Pc)
      → s.pc i ≡ waiting k c
      → ((l : String) (d : ℕ) → p ≡ leading l d → ⊥)
      → ((l : String) (d : ℕ) → p ≡ waiting l d → ⊥)
      → Inv (record s { pc = update s.pc i p })
  leave-Inv k c p at no_lead no_wait = record {
    led = λ j l d h. ground (arith, led j l d, no_lead l d);
    open_led = λ j l d h. ground (arith, open_led j l d, no_lead l d);
    leader = λ l d h. let (j, leads) = leader l d h in (j, ground arith);
    unique = λ a b l m d h g. ground (arith, unique a b l m d, no_lead l d, no_lead m d);
    awaited = λ j l d h. ground (arith, awaited j l d, no_wait l d);
    fresh = fresh;
  }

  -- The leader of a call finishes it.
  finish-Inv :
      (k : String) (c : ℕ) (r : Outcome) (p : Response)
      → s.pc i ≡ leading k c
      → Inv (record {
        flights = record s.flights {
          in_flight = delete k s.flights.in_flight;
          calls = insert c (closed_call r) s.flights.calls;
        };
        pc = update s.pc i (answered p);
      })
  unfolding is_closed
  finish-Inv k c r p at =
      let mine = led i k c at in
      let opened = open_led i k c at in
      record {
        led = λ j l d h.
            ground (
              arith,
              led j l d,
              unique i j k l d,
              lookup-delete k l s.flights.in_flight,
              eq_iff k l,
            );
        open_led = λ j l d h. ground (
          arith,
          open_led j l d,
          unique i j k l d,
          lookup-insert c d (closed_call r) s.flights.calls,
        );
        leader = λ l d h.
            let there : lookup l s.flights.in_flight ≡ some d =
              ground (arith, lookup-delete k l s.flights.in_flight) in
            let (j, leads) = leader l d there in
            (j, ground (arith, lookup-delete k l s.flights.in_flight, eq_iff k l));
        unique = λ a b l m d h g. ground (arith, unique a b l m d);
        awaited = λ j l d h. ground (
          arith,
          awaited j l d,
          lookup-delete k l s.flights.in_flight,
          eq_iff k l,
          lookup-insert c d (closed_call r) s.flights.calls,
        );
        fresh = λ d x h. ground (
          arith,
          fresh d x,
          fresh c open_call,
          lookup-insert c d (closed_call r) s.flights.calls,
        );
      }

  -- The leader finds its call open: neither a nil call nor a second close.
  pub finish-total :
      (k : String) (c : ℕ) (r : Outcome)
      → s.pc i ≡ leading k c
      → finish_in_flight k c r s.flights
        ≡ some (record s.flights {
          in_flight = delete k s.flights.in_flight;
          calls = insert c (closed_call r) s.flights.calls;
        })
  unfolding finish_in_flight
  finish-total k c r at = rw (open_led i k c at, finish_in_flight) refl

some-eq {ℓ} : {A : Type ℓ} {a b : A} → some a ≡ some b → a ≡ b
some-eq h = cc

-- What a finish leaves, whichever way it is written.
pub finish_leaves :
    (s : System) (inv : Inv s) (i : ℕ) (k : String) (c : ℕ) (r : Outcome) (flights : Flights)
    → s.pc i ≡ leading k c
    → finish_in_flight k c r s.flights ≡ some flights
    → record s.flights {
      in_flight = delete k s.flights.in_flight;
      calls = insert c (closed_call r) s.flights.calls;
    }
      ≡ flights
finish_leaves s inv i k c r flights at e = some-eq (sym (finish-total s inv i k c r at) ∙ e)

pub Step-Inv : {s : System} {i : ℕ} {t : System} → Step s i t → Inv s → Inv t
unfolding get_or_create_in_flight
Step-Inv {s} {i = i} (enter k at) inv = elim (Option-cases (lookup k s.flights.in_flight)) [
  | inl free ↦ rw (free, get_or_create_in_flight) (lead-Inv s inv i k at free)
  | inr (c, there) ↦ rw (there, get_or_create_in_flight) (join-Inv s inv i k c at there)
]
Step-Inv {s} {i = i} (finish k c r flights at e) inv =
    let same = finish_leaves s inv i k c r flights at e in
    subst (λ f. Inv (record { flights = f; pc = update s.pc i (answered (leader_response r)) }))
      same (finish-Inv s inv i k c r (leader_response r) at)
Step-Inv {s} {i = i} (wake k c x at there closed) inv =
    leave-Inv s inv i k c _ at (λ l d e. cc) (λ l d e. cc)
Step-Inv {s} {i = i} (give_up k c at) inv = leave-Inv s inv i k c _ at (λ l d e. cc) (λ l d e. cc)

pub Reach-Inv : {s : System} → Reach s → Inv s
Reach-Inv start = init-Inv
Reach-Inv (next i r st) = Step-Inv st (Reach-Inv r)
