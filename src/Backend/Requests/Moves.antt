-- ===== src/Backend/Requests/Moves.antt =====
-- Every step of the backend simulator keeps the invariant.
use distributed_caching.Base.{
  ℕ, suc, ◌+◌, ◌-◌, ◌≤◌, ◌<◌, ◌≡◌, refl, sym, ap, ◌∙◌, Bool, true, false, Option, none, some,
  lookup, insert, delete, nat_keys, ◌==◌, if◌then◌else◌, insert-Distinct, delete-Distinct,
  lookup-insert, lookup-delete, total-insert_absent, total-delete, length, length-insert_new,
  length-delete, arith, Bool-cases, Option-cases, inl, inr,
}
use distributed_caching.Base.Int.{
  ℤ, pos, negsuc, pos_part, wrap64, wrap64-incr, wrap64-decr, ◌+ℤ◌, leb_ℤ,
}
use distributed_caching.Base.Tests.{==_iff}
use distributed_caching.Backend.Requests.{
  BackendConfig, Channel, Settings, Phase, entered, waiting, holding, delayed, leaving, Request,
  Handler, let_in, settings_of, set_phase, send, receive, concurrent_delay, let_out, update_config,
  install_config, make_channel, check_backend_config, activate_fault, end_fault, start_handler,
}
use distributed_caching.Backend.Requests.Invariant.{
  Inv, settings?, phase_holds, holds_at, holders_fresh, phase-Inv,
}
use distributed_caching.Backend.Requests.Steps.{
  Move, read_settings, acquire, measure, release, depart, Step, arrive, move, cancel, configure,
  fault, fault_over, Reach, start, next,
}
use distributed_caching.Time.{Time}

start-Inv : Inv start_handler
unfolding lookup wrap64
start-Inv = record {
  distinct = tt;
  active_eq = refl;
  counted = λ a c h. ground arith;
  within = λ a c h. ground arith;
  roomy = λ a c h. ground arith;
  below = λ a c h. ground (arith, ==_iff 0 a);
  current = (make_channel (pos 15), refl);
  known = λ i r s h k. cc;
  outage = λ h. cc;
}

module _ (h : Handler) (inv : Inv h) (i : ℕ) (r : Request) where
  open inv use {distinct, active_eq, counted, within, roomy, below, current, known, outage}

  -- A phase that holds what the last one held.
  quiet-Inv :
      (p : Phase)
      → lookup i h.requests ≡ some r
      → ((a : ℕ) → holds_at a r ≡ phase_holds a p)
      → ((s : Settings)
          → settings? p ≡ some s
          → (b : Channel) × (lookup s.semaphore h.channels ≡ some b))
      → Inv (set_phase i r p h)
  unfolding set_phase
  quiet-Inv p there same reads = phase-Inv h inv i r p h.channels there (record {
    was = λ a c made. (c, made, refl, omega (arith, same a), within a c made);
    stays = λ a b made. (b, made);
    reads = reads;
  })

  -- A channel gains or loses what the phase does.
  trade-Inv :
      (s : Settings) (p : Phase) (b c : Channel)
      → lookup i h.requests ≡ some r
      → lookup s.semaphore h.channels ≡ some b
      → c.cap ≡ b.cap
      → c.len ≤ b.cap
      → ((a : ℕ)
          → (if s.semaphore == a then c.len else 0) + holds_at a r
            ≡ (if s.semaphore == a then b.len else 0) + phase_holds a p)
      → ((t : Settings)
          → settings? p ≡ some t
          → (d : Channel) × (lookup t.semaphore h.channels ≡ some d))
      → Inv (record h {
        requests = insert i (record r { phase = p }) h.requests;
        channels = insert s.semaphore c h.channels;
      })
  trade-Inv s p b c there old cap fits trade reads =
      phase-Inv h inv i r p (insert s.semaphore c h.channels) there (record {
        was = λ a d made. elim (Bool-cases (s.semaphore == a)) [
          | inl same ↦ (
            b,
            ground (arith, ==_iff s.semaphore a),
            ground (arith, lookup-insert s.semaphore a c h.channels),
            ground (arith, lookup-insert s.semaphore a c h.channels, trade a),
            ground (arith, lookup-insert s.semaphore a c h.channels),
          )
          | inr other ↦
              let was : lookup a h.channels ≡ some d =
                ground (arith, lookup-insert s.semaphore a c h.channels) in
              (d, was, refl, ground (arith, trade a), within a d was)
        ];
        stays = λ a d made. elim (Bool-cases (s.semaphore == a)) [
          | inl same ↦ (c, ground (arith, lookup-insert s.semaphore a c h.channels))
          | inr other ↦ (d, ground (arith, lookup-insert s.semaphore a c h.channels))
        ];
        reads = reads;
      })

  acquire-Inv :
      (s : Settings) (c : Channel)
      → lookup i h.requests ≡ some r
      → r.phase ≡ waiting s
      → lookup s.semaphore h.channels ≡ some c
      → c.len < c.cap
      → Inv (set_phase i r (holding s) (send s.semaphore c h))
  unfolding set_phase send
  acquire-Inv s c there at made free =
      trade-Inv s (holding s) c (record c { len = suc c.len }) there made refl (omega arith)
        (λ a. ground (arith, at)) (λ t e. known i r t there (at_waiting s t at e))
    where
      at_waiting :
          (s t : Settings) → r.phase ≡ waiting s → some s ≡ some t → settings? r.phase ≡ some t
      at_waiting s t at e = cc (ap settings? at, e)

  release-Inv :
      (s : Settings) (d : ℤ) (c : Channel)
      → lookup i h.requests ≡ some r
      → r.phase ≡ delayed s d
      → lookup s.semaphore h.channels ≡ some c
      → 0 < c.len
      → Inv (set_phase i r leaving (receive s.semaphore c h))
  unfolding set_phase receive
  release-Inv s d c there at made full =
      trade-Inv s leaving c (record c { len = c.len - 1 }) there made refl
        (omega (arith, within s.semaphore c made)) (λ a. ground (arith, at)) (λ t e. cc)

  depart-Inv :
      (now : Time) → lookup i h.requests ≡ some r → r.phase ≡ leaving → Inv (let_out i r now h)
  unfolding let_out
  depart-Inv now there at = record {
    distinct = delete-Distinct i h.requests distinct;
    active_eq =
        let fewer = length-delete i r h.requests distinct there in
        ap (λ t. wrap64 (t +ℤ negsuc 0)) (active_eq ∙ ap (λ n. wrap64 (pos n)) (sym fewer))
        ∙ wrap64-decr (length (delete i h.requests));
    counted = λ a c made. omega (
      arith,
      counted a c made,
      total-delete (holds_at a) i r h.requests distinct there,
      ap (λ p. phase_holds a p) at,
    );
    within = within;
    roomy = roomy;
    below = below;
    current = current;
    known = λ j q s here reads. known j q s (ground (arith, lookup-delete i j h.requests)) reads;
    outage = outage;
  }

  Move-Inv : {t : Handler} → lookup i h.requests ≡ some r → Move h i r t → Inv t
  Move-Inv there (read_settings at) =
      quiet-Inv (waiting (settings_of h)) there (λ a. ap (λ p. phase_holds a p) at)
        (λ s e. let (c, made) = current in (c, ground (arith, e, made)))
  Move-Inv there (acquire s c at made free) = acquire-Inv s c there at made free
  Move-Inv there (measure s c at made) =
      quiet-Inv (delayed s (concurrent_delay s c)) there (λ a. ap (λ p. phase_holds a p) at)
        (λ t e. (c, ground (arith, e, made)))
  Move-Inv there (release s d c at made full) = release-Inv s d c there at made full
  Move-Inv there (depart now at) = depart-Inv now there at

module _ (h : Handler) (inv : Inv h) where
  open inv use {distinct, active_eq, counted, within, roomy, below, current, known, outage}

  arrive-Inv : (i : ℕ) (now : Time) → lookup i h.requests ≡ none → Inv (let_in i now h)
  unfolding let_in
  arrive-Inv i now absent =
      let r : Request = record { started_at = now; phase = entered } in
      record {
        distinct = insert-Distinct i r h.requests distinct;
        active_eq =
            ap (λ t. wrap64 (t +ℤ pos 1)) active_eq
            ∙ wrap64-incr (length h.requests)
            ∙ ap (λ n. wrap64 (pos n)) (sym (length-insert_new i r h.requests absent));
        counted = λ a c made.
            omega (arith, counted a c made, total-insert_absent (holds_at a) i r h.requests absent);
        within = within;
        roomy = roomy;
        below = below;
        current = current;
        known = λ j q s here reads. elim (Bool-cases (i == j)) [
          | inl same ↦ absurd (ground (arith, lookup-insert i j r h.requests))
          | inr other ↦ known j q s (ground (arith, lookup-insert i j r h.requests)) reads
        ];
        outage = outage;
      }

  install-Inv : (c : BackendConfig) → 0 < pos_part c.semaphore_size → Inv (install_config c h)
  install-Inv c positive =
      let n = h.next_channel in
      let made = make_channel c.semaphore_size in
      record {
        distinct = distinct;
        active_eq = active_eq;
        counted = λ a d there. ground (
          arith,
          ==_iff n a,
          lookup-insert n a made h.channels,
          counted a d,
          holders_fresh h inv,
        );
        within = λ a d there. ground (arith, lookup-insert n a made h.channels, within a d);
        roomy = λ a d there. ground (arith, lookup-insert n a made h.channels, roomy a d);
        below =
            λ a d there. ground (arith, ==_iff n a, lookup-insert n a made h.channels, below a d);
        current = (made, ground (arith, ==_iff n n, lookup-insert n n made h.channels));
        known = λ i r s there reads.
            let (b, old) = known i r s there reads in
            (
              b,
              ground (
                arith,
                ==_iff n s.semaphore,
                below s.semaphore b old,
                lookup-insert n s.semaphore made h.channels,
              ),
            );
        outage = outage;
      }

  configure-Inv : (c : Option BackendConfig) → Inv (update_config c h).1
  unfolding update_config check_backend_config
  configure-Inv none = inv
  configure-Inv (some c) = elim (Option-cases (check_backend_config c)) [
    | inr (m, refused) ↦ rw (refused, update_config) inv
    | inl passed ↦ rw (passed, update_config) (install-Inv c (ground (arith, passed)))
  ]

  -- The flag and the goroutines change alone.
  flag-Inv :
      (down : Bool) (n : ℕ)
      → (down ≡ true → 0 < n)
      → Inv (record h { unavailable = down; faults = n })
  flag-Inv down n sleeps = record {
    distinct = distinct;
    active_eq = active_eq;
    counted = counted;
    within = within;
    roomy = roomy;
    below = below;
    current = current;
    known = known;
    outage = sleeps;
  }

  fault-Inv : (d : Option ℤ) → Inv (activate_fault d h).1
  unfolding activate_fault
  fault-Inv none = inv
  fault-Inv (some d) = elim (Bool-cases (leb_ℤ d (pos 0))) [
    | inl bad ↦ rw (bad, activate_fault) inv
    | inr good ↦ rw (good, activate_fault) (flag-Inv true (suc h.faults) (λ e. omega arith))
  ]

  fault_over-Inv : Inv (end_fault h)
  unfolding end_fault
  fault_over-Inv = flag-Inv false (h.faults - 1) (λ e. cc)

pub Step-Inv : {h t : Handler} → Step h t → Inv h → Inv t
Step-Inv {h} (arrive i now up absent) inv = arrive-Inv h inv i now absent
Step-Inv {h} (move i r there m) inv = Move-Inv h inv i r there m
Step-Inv {h} (cancel i r s there at) inv =
    quiet-Inv h inv i r leaving there (λ a. ap (λ p. phase_holds a p) at) (λ t e. cc)
Step-Inv {h} (configure c) inv = configure-Inv h inv c
Step-Inv {h} (fault d) inv = fault-Inv h inv d
Step-Inv {h} (fault_over some_left) inv = fault_over-Inv h inv

pub Reach-Inv : {h : Handler} → Reach h → Inv h
Reach-Inv start = start-Inv
Reach-Inv (next r st) = Step-Inv st (Reach-Inv r)
