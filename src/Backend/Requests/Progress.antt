-- ===== src/Backend/Requests/Progress.antt =====
-- The requests that were let in come to their end: what a run of their own steps does, without new
-- requests, configurations or contexts that end.
use distributed_caching.Base.{
  ℕ, zero, suc, ◌+◌, ◌≤◌, ◌<◌, ◌≡◌, refl, sym, ap, ◌∙◌, List, [], ◌∷◌, some, lookup, nat_keys,
  total, total-insert_present, total-delete, total_pos, length, arith, dec_lt, ◌⊎◌, inl, inr,
}
use distributed_caching.Base.Int.{pos, wrap64}
use distributed_caching.Base.Tests.{==_iff}
use distributed_caching.Backend.Requests.{
  Channel, Settings, Phase, entered, waiting, holding, delayed, leaving, Request, Handler,
  set_phase, send, receive, let_out,
}
use distributed_caching.Backend.Requests.Invariant.{Inv, settings?, phase_holds, holds_at, holders}
use distributed_caching.Backend.Requests.Moves.{Step-Inv, Reach-Inv}
use distributed_caching.Backend.Requests.Steps.{
  Move, read_settings, acquire, measure, release, depart, move, Reach,
}

-- How many steps a request has before it.
abbrev pub steps_left : Phase → ℕ
steps_left entered = 5
steps_left (waiting s) = 4
steps_left (holding s) = 3
steps_left (delayed s d) = 2
steps_left leaving = 1

abbrev pub work : Handler → ℕ
work h = total (λ r. steps_left r.phase) h.requests

-- A run of the requests' own steps, with their number.
pub data Moves : Handler → ℕ → Handler → Type 0 where
  stay : {h : Handler} → Moves h 0 h
  then :
      {n : ℕ} {h t u : Handler} (i : ℕ) (r : Request)
      → lookup i h.requests ≡ some r
      → Move h i r t
      → Moves t n u
      → Moves h (suc n) u

abbrev pub CanMove : Handler → Type 0
CanMove h = (i : ℕ) × (r : Request) × (t : Handler) × (lookup i h.requests ≡ some r) × Move h i r t

module _ (h : Handler) (inv : Inv h) where
  open inv use {distinct, counted, within, roomy, known}

  -- The channel of a request that holds an item of it.
  held_channel :
      (i : ℕ) (r : Request) (s : Settings)
      → lookup i h.requests ≡ some r
      → settings? r.phase ≡ some s
      → 0 < holds_at s.semaphore r
      → (c : Channel) × (lookup s.semaphore h.channels ≡ some c) × (0 < c.len) × (c.len ≤ c.cap)
  held_channel i r s there reads holds =
      let (c, made) = known i r s there reads in
      (
        c,
        made,
        omega (
          arith,
          counted s.semaphore c made,
          total-delete (holds_at s.semaphore) i r h.requests distinct there,
        ),
        within s.semaphore c made,
      )

  -- A request that holds an item always has a step.
  holder-CanMove :
      (i : ℕ) (r : Request) (a : ℕ) → lookup i h.requests ≡ some r → 0 < holds_at a r → CanMove h
  holder-CanMove i r a there holds = by_phase r.phase refl holds
    where
      by_phase : (p : Phase) → r.phase ≡ p → 0 < phase_holds a p → CanMove h
      by_phase entered at holds = absurd (omega arith)
      by_phase (waiting s) at holds = absurd (omega arith)
      by_phase (holding s) at holds =
          let (c, made) = known i r s there (ap settings? at) in
          (i, r, _, there, measure s c at made)
      by_phase (delayed s d) at holds =
          let (c, made, full, fits) =
            held_channel i r s there (ap settings? at)
              (ground (arith, at, ==_iff s.semaphore s.semaphore)) in
          (i, r, _, there, release s d c at made full)
      by_phase leaving at holds = absurd (omega arith)

  some-CanMove : (i : ℕ) (r : Request) → lookup i h.requests ≡ some r → CanMove h
  some-CanMove i r there = by_phase r.phase refl
    where
      by_phase : (p : Phase) → r.phase ≡ p → CanMove h
      by_phase entered at = (i, r, _, there, read_settings at)
      by_phase (waiting s) at =
          let (c, made) = known i r s there (ap settings? at) in
          elim (dec_lt c.len c.cap) [
            | yes free ↦ (i, r, _, there, acquire s c at made free)
            | no full ↦
                let (j, q, here, holds) =
                  total_pos (holds_at s.semaphore) h.requests distinct
                    (omega (arith, counted s.semaphore c made, roomy s.semaphore c made)) in
                holder-CanMove j q s.semaphore here holds
          ]
      by_phase (holding s) at =
          holder-CanMove i r s.semaphore there (ground (arith, at, ==_iff s.semaphore s.semaphore))
      by_phase (delayed s d) at =
          holder-CanMove i r s.semaphore there (ground (arith, at, ==_iff s.semaphore s.semaphore))
      by_phase leaving at = (i, r, _, there, depart r.started_at at)

  Inv-CanMove : (h.requests ≡ []) ⊎ CanMove h
  unfolding lookup
  Inv-CanMove = by_requests h.requests refl
    where
      by_requests : (m : List (ℕ × Request)) → h.requests ≡ m → (h.requests ≡ []) ⊎ CanMove h
      by_requests [] e = inl e
      by_requests ((i, r) ∷ m) e = inr (some-CanMove i r (ground (arith, e, ==_iff i i)))

  phase-work :
      (i : ℕ) (r : Request) (p : Phase)
      → lookup i h.requests ≡ some r
      → suc (steps_left p) ≡ steps_left r.phase
      → suc (work (set_phase i r p h)) ≡ work h
  unfolding set_phase
  phase-work i r p there fewer = omega (
    arith,
    total-insert_present (λ q. steps_left q.phase) i (record r { phase = p }) r h.requests there,
  )

  Move-work :
      (i : ℕ) (r : Request) {t : Handler}
      → lookup i h.requests ≡ some r
      → Move h i r t
      → suc (work t) ≡ work h
  unfolding set_phase send receive let_out
  Move-work i r there (read_settings at) = phase-work i r _ there (ap steps_left (sym at))
  Move-work i r there (acquire s c at made free) = phase-work i r _ there (ap steps_left (sym at))
  Move-work i r there (measure s c at made) = phase-work i r _ there (ap steps_left (sym at))
  Move-work i r there (release s d c at made full) = phase-work i r _ there (ap steps_left (sym at))
  Move-work i r there (depart now at) = omega (
    arith,
    ap steps_left at,
    total-delete (λ q. steps_left q.phase) i r h.requests distinct there,
  )

-- No run takes more steps than there is work.
Moves-work : {h : Handler} {n : ℕ} {t : Handler} → Inv h → Moves h n t → n + work t ≡ work h
Moves-work inv stay = omega arith
Moves-work inv (then {h = h} i r there m ms) =
    omega (arith, Move-work h inv i r there m, Moves-work (Step-Inv (move i r there m) inv) ms)

Moves-Inv : {h : Handler} {n : ℕ} {t : Handler} → Inv h → Moves h n t → Inv t
Moves-Inv inv stay = inv
Moves-Inv inv (then i r there m ms) = Moves-Inv (Step-Inv (move i r there m) inv) ms

-- Nothing is left of any request.
pub record Idle (h : Handler) : Type 0 where
  pub no_requests : h.requests ≡ []
  pub not_active : h.active ≡ pos 0
  pub channels_empty : (a : ℕ) (c : Channel) → lookup a h.channels ≡ some c → c.len ≡ 0

Inv-Idle : {h : Handler} → Inv h → h.requests ≡ [] → Idle h
unfolding wrap64
Inv-Idle inv none_left = record {
  no_requests = none_left;
  not_active = inv.active_eq ∙ ap (λ m. wrap64 (pos (length m))) none_left;
  channels_empty = λ a c made. inv.counted a c made ∙ ap (λ m. total (holds_at a) m) none_left;
}

Inv-drains : (n : ℕ) (h : Handler) → Inv h → work h ≡ n → (t : Handler) × Moves h n t × Idle t
Inv-drains zero h inv e = elim (Inv-CanMove h inv) [
  | inl none_left ↦ (h, stay, Inv-Idle inv none_left)
  | inr (i, r, t, there, m) ↦ absurd (omega (arith, Move-work h inv i r there m))
]
Inv-drains (suc n) h inv e = elim (Inv-CanMove h inv) [
  | inl none_left ↦ absurd (omega (arith, ap (λ m. total (λ r. steps_left r.phase) m) none_left))
  | inr (i, r, t, there, m) ↦
      let (u, ms, idle) =
        Inv-drains n t (Step-Inv (move i r there m) inv)
          (omega (arith, Move-work h inv i r there m)) in
      (u, then i r there m ms, idle)
]

-- From a reachable state of the backend simulator, with any number of requests on any number of
-- channels, a run of n steps of the requests alone leaves that much less work, where the work of a
-- request is at most five steps, and it can be continued, by as many steps as there is work left,
-- to a state without requests, in which the count of active requests is zero and every channel is
-- empty.
pub run_completes :
    {h t : Handler} {n : ℕ}
    → Reach h
    → Moves h n t
    → (n + work t ≡ work h) × (u : Handler) × Moves t (work t) u × Idle u
run_completes reach run =
    let inv = Reach-Inv reach in
    let (u, rest, idle) = Inv-drains _ _ (Moves-Inv inv run) refl in
    (Moves-work inv run, u, rest, idle)

-- In a reachable state of the backend simulator, with any interleaving of requests, canceled
-- requests, new configurations and faults, the count of active requests is the number of requests
-- as a 64-bit integer, every channel has as many items as there are requests that hold one of it,
-- at most as many as its capacity, and a capacity above zero.
pub Reach-counts :
    {h : Handler}
    → Reach h
    → (h.active ≡ wrap64 (pos (length h.requests)))
      × ((a : ℕ) (c : Channel)
          → lookup a h.channels ≡ some c
          → (c.len ≡ holders a h) × (c.len ≤ c.cap) × (0 < c.cap))
Reach-counts reach =
    let inv = Reach-Inv reach in
    (inv.active_eq, λ a c made. (inv.counted a c made, inv.within a c made, inv.roomy a c made))

-- In a reachable state of the backend simulator, the channel of a request that holds an item is
-- found and has at least one item, so that the deferred receive never blocks, and at most as many
-- items as its capacity, so that the concurrent delay counts between one request and the capacity.
pub Reach-held_channel :
    {h : Handler} (i : ℕ) (r : Request) (s : Settings)
    → Reach h
    → lookup i h.requests ≡ some r
    → settings? r.phase ≡ some s
    → 0 < holds_at s.semaphore r
    → (c : Channel) × (lookup s.semaphore h.channels ≡ some c) × (0 < c.len) × (c.len ≤ c.cap)
Reach-held_channel {h} i r s reach there reads holds =
    held_channel h (Reach-Inv reach) i r s there reads holds
