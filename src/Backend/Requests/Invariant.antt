-- ===== src/Backend/Requests/Invariant.antt =====
-- What holds of the backend simulator between any two steps: the count of active requests, and the
-- items of every channel.
use distributed_caching.Base.{
  ℕ, ◌+◌, ◌≤◌, ◌<◌, ◌≡◌, refl, true, List, Option, none, some, lookup, insert, nat_keys, ◌==◌,
  if◌then◌else◌, Distinct, insert-Distinct, lookup-insert, total, total-insert_present, total_pos,
  length, length-insert_present, arith, Bool-cases, inl, inr, dec_lt,
}
use distributed_caching.Base.Int.{pos, wrap64}
use distributed_caching.Backend.Requests.{
  Channel, Settings, Phase, entered, waiting, holding, delayed, leaving, Request, Handler,
}

-- What a request read of the configuration.
abbrev pub settings? : Phase → Option Settings
settings? entered = none
settings? (waiting s) = some s
settings? (holding s) = some s
settings? (delayed s d) = some s
settings? leaving = none

abbrev pub phase_holds : ℕ → Phase → ℕ
phase_holds a entered = 0
phase_holds a (waiting s) = 0
phase_holds a (holding s) = if s.semaphore == a then 1 else 0
phase_holds a (delayed s d) = if s.semaphore == a then 1 else 0
phase_holds a leaving = 0

abbrev pub holds_at : ℕ → Request → ℕ
holds_at a r = phase_holds a r.phase

-- How many requests hold an item of the channel.
abbrev pub holders : ℕ → Handler → ℕ
holders a h = total (holds_at a) h.requests

pub record Inv (h : Handler) : Type 0 where
  pub distinct : Distinct h.requests
  pub active_eq : h.active ≡ wrap64 (pos (length h.requests))
  pub counted : (a : ℕ) (c : Channel) → lookup a h.channels ≡ some c → c.len ≡ holders a h
  pub within : (a : ℕ) (c : Channel) → lookup a h.channels ≡ some c → c.len ≤ c.cap
  pub roomy : (a : ℕ) (c : Channel) → lookup a h.channels ≡ some c → 0 < c.cap
  pub below : (a : ℕ) (c : Channel) → lookup a h.channels ≡ some c → a < h.next_channel
  pub current : (c : Channel) × (lookup h.semaphore h.channels ≡ some c)
  pub known :
      (i : ℕ) (r : Request) (s : Settings)
      → lookup i h.requests ≡ some r
      → settings? r.phase ≡ some s
      → (c : Channel) × (lookup s.semaphore h.channels ≡ some c)
  pub outage : h.unavailable ≡ true → 0 < h.faults

pub holds_at-settings :
    (a : ℕ) (r : Request)
    → 0 < holds_at a r
    → (s : Settings) × (settings? r.phase ≡ some s) × (s.semaphore ≡ a)
holds_at-settings a r h = by_phase a r.phase h
  where
    by_phase :
        (a : ℕ) (p : Phase)
        → 0 < phase_holds a p
        → (s : Settings) × (settings? p ≡ some s) × (s.semaphore ≡ a)
    by_phase a entered h = absurd (omega arith)
    by_phase a (waiting s) h = absurd (omega arith)
    by_phase a (holding s) h = (s, refl, ground arith)
    by_phase a (delayed s d) h = (s, refl, ground arith)
    by_phase a leaving h = absurd (omega arith)

module _ (h : Handler) (inv : Inv h) where
  open inv use {distinct, active_eq, counted, within, roomy, below, current, known, outage}

  -- An address that is not given out has no holder.
  pub holders_fresh : holders h.next_channel h ≡ 0
  holders_fresh = elim (dec_lt 0 (holders h.next_channel h)) [
    | no h0 ↦ omega arith
    | yes some_held ↦
        let (i, r, there, counts) =
          total_pos (holds_at h.next_channel) h.requests distinct some_held in
        let (s, reads, same) = holds_at-settings h.next_channel r counts in
        let (c, made) = known i r s there reads in
        absurd (omega (arith, below s.semaphore c made, same))
  ]

  -- A request takes another phase, and the channels follow.
  module _ (i : ℕ) (r : Request) (p : Phase) (channels : List (ℕ × Channel))
      (there : lookup i h.requests ≡ some r) where
    -- What became of each channel.
    pub record Follows : Type 0 where
      pub was :
          (a : ℕ) (c : Channel)
          → lookup a channels ≡ some c
          → (b : Channel) × (lookup a h.channels ≡ some b)
            × (c.cap ≡ b.cap)
            × (c.len + holds_at a r ≡ b.len + phase_holds a p)
            × (c.len ≤ b.cap)
      pub stays :
          (a : ℕ) (b : Channel)
          → lookup a h.channels ≡ some b
          → (c : Channel) × (lookup a channels ≡ some c)
      pub reads :
          (s : Settings)
          → settings? p ≡ some s
          → (b : Channel) × (lookup s.semaphore h.channels ≡ some b)

    pub phase-Inv :
        Follows
        → Inv (record h {
          requests = insert i (record r { phase = p }) h.requests;
          channels = channels;
        })
    phase-Inv f = record {
      distinct = insert-Distinct i (record r { phase = p }) h.requests distinct;
      active_eq =
          ground
            (arith, active_eq, length-insert_present i (record r { phase = p }) r h.requests there);
      counted = λ a c made.
          let (b, old, cap, len, fits) = f.was a c made in
          omega (
            arith,
            counted a b old,
            total-insert_present (holds_at a) i (record r { phase = p }) r h.requests there,
          );
      within = λ a c made. let (b, old, cap, len, fits) = f.was a c made in omega (arith, cap);
      roomy = λ a c made.
          let (b, old, cap, len, fits) = f.was a c made in omega (arith, cap, roomy a b old);
      below = λ a c made. let (b, old, cap, len, fits) = f.was a c made in below a b old;
      current = let (b, old) = current in f.stays h.semaphore b old;
      known = λ j q s here reads_s. elim (Bool-cases (i == j)) [
        | inl same ↦
            let (b, old) =
              f.reads s (ground (arith, lookup-insert i j (record r { phase = p }) h.requests)) in
            f.stays s.semaphore b old
        | inr other ↦
            let (b, old) =
              known j q s (ground (arith, lookup-insert i j (record r { phase = p }) h.requests))
                reads_s in
            f.stays s.semaphore b old
      ];
      outage = outage;
    }
