-- ===== src/Lock/Rounds.antt =====
-- The loop of `fetchWithDistributedLock` in gateway/distributed_lock.go.
use distributed_caching.Base.{
  ℕ, zero, suc, ◌<◌, ◌≤◌, ◌≡◌, refl, sym, subst, ap, ◌∙◌, Bool, true, false, ◌&&◌, String, List, [],
  ◌∷◌, Option, none, some, if◌then◌else◌, Option-cases, inl, inr, arith,
}
use distributed_caching.Base.Int.{ℤ, pos, leb_ℤ, wrap64, ◌+ℤ◌}
use distributed_caching.Config.{GatewayConfig}
use distributed_caching.Fetch.{Env, Fetched}
use distributed_caching.L2.{get_l2, score_now, l2_lru_key}
use distributed_caching.Lock.{
  distributed_lock_key, try_acquire_distributed_lock, fetch_as_distributed_lock_owner,
  wait_for_lock, lock_round, fetch_with_distributed_lock, lock_safety_margin, lock_poll_interval,
  failed,
}
use distributed_caching.Outside.{Io, Reply, ok, err, pure, ◌>>=◌}
use distributed_caching.Outside.Ensuring.{Ensures, Anything, reply_option-Ensures, option-Ensures}
use distributed_caching.Outside.Keeping.{Keeping, reply-Keeping}
use distributed_caching.Time.{Duration, of_units, millisecond}

-- What an action does by cases, from states with `P`, told by a predicate of its outcome.
module _ {S B : Type 0} (P : S → Type 0) (Q : B × S → Type 0) where
  abbrev Leads : Io S B → Type 0
  Leads m = (s : S) → P s → Q (m s)

  if-Leads :
      (b : Bool) (m n : Io S B)
      → (b ≡ true → Leads m)
      → (b ≡ false → Leads n)
      → Leads (if b then m else n)
  if-Leads true m n h g = h refl
  if-Leads false m n h g = g refl

  option-Leads :
      {A : Type 0} (o : Option A) (m : Io S B) (k : A → Io S B)
      → Leads m
      → ((a : A) → Leads (k a))
      → Leads (elim o [ none ↦ m | some a ↦ k a ])
  option-Leads none m k h g = h
  option-Leads (some a) m k h g = g a

-- The waiting context of a request, whose commands go-redis refuses once it has ended.
module _ {W Float : Type 0} (env : Env W Float) where
  open env use {floats, clock, redis, codec, backend}

  -- What is left of the context. No command gives any back; a wait that ends with its timer, and a
  -- look at the lock that finds it gone, take some.
  pub record Deadline : Type 0 where
    pub left : W → ℕ
    pub now : (w : W) → left (clock.now w).1 ≤ left w
    pub token : (w : W) → left (backend.token w).1 ≤ left w
    pub get : (k : String) (w : W) → left (redis.get k w).1 ≤ left w
    pub set_nx : (k t : String) (ttl : Duration) (w : W) → left (redis.set_nx k t ttl w).1 ≤ left w
    pub del : (ks : List String) (w : W) → left (redis.del ks w).1 ≤ left w
    pub zadd : (z : String) (x : Float) (k : String) (w : W) → left (redis.zadd z x k w).1 ≤ left w
    pub zrem : (z k : String) (w : W) → left (redis.zrem z k w).1 ≤ left w
    pub key_exists : (k : String) (w : W) → left (redis.key_exists k w).1 ≤ left w
    pub gone :
        (k : String) (w : W)
        → (redis.key_exists k w).0 ≡ ok (pos 0)
        → left (redis.key_exists k w).1 < left w
    pub waited :
        (d : Duration) (w : W) → (backend.poll d w).0 ≡ none → left (backend.poll d w).1 < left w

  module _ (deadline : Deadline) (n : ℕ) where
    open deadline use {left}

    abbrev AtMost : W → Type 0
    AtMost w = left w ≤ n

    -- Another round has less left.
    abbrev Ends : Option Fetched × W → Type 0
    Ends x = x.0 ≡ none → left x.1 < n

    no_more : {A : Type 0} (m : Io W A) → ((w : W) → left (m w).1 ≤ left w) → Keeping AtMost m
    no_more m less w h = omega (arith, less w)

    score_now-Keeping : Keeping AtMost (score_now floats clock redis codec)
    unfolding score_now
    score_now-Keeping w h = no_more clock.now deadline.now w h

    get_l2-Ensures : (key : String) → Ensures AtMost (get_l2 floats clock redis codec key) Anything
    unfolding get_l2
    get_l2-Ensures key w h =
        let untrack = no_more (redis.zrem l2_lru_key key) (deadline.zrem l2_lru_key key) in
        reply_option-Ensures AtMost Anything (redis.get key w).0 _ _ _ (λ e s g. (g, tt))
          (λ s g. (untrack s g, tt))
          (λ t there.
            option-Ensures AtMost Anything (codec.decode t) _ _
              (λ bad s g.
                (untrack _ (no_more (redis.del (key ∷ [])) (deadline.del (key ∷ [])) s g), tt))
              (λ v good s g.
                let (score, s1) = score_now floats clock redis codec s in
                (
                  no_more (redis.zadd l2_lru_key score key) (deadline.zadd l2_lru_key score key) s1
                      (score_now-Keeping s g),
                  tt,
                )))
          (redis.get key w).1 (no_more (redis.get key) (deadline.get key) w h)

    try_acquire_distributed_lock-Keeping :
        (lock : String) (ttl : Duration)
        → Keeping AtMost (try_acquire_distributed_lock env lock ttl)
    unfolding try_acquire_distributed_lock
    try_acquire_distributed_lock-Keeping lock ttl w h =
        reply-Keeping AtMost (backend.token w).0 _ _ (λ e s g. g)
          (λ token s g.
            reply-Keeping AtMost (redis.set_nx lock token ttl s).0 _ _ (λ e t i. i) (λ got t i. i)
              (redis.set_nx lock token ttl s).1
              (no_more (redis.set_nx lock token ttl) (deadline.set_nx lock token ttl) s g))
          (backend.token w).1 (no_more backend.token deadline.token w h)

    abbrev wait_once : Io W (Option Fetched)
    wait_once = do
      ended ← backend.poll lock_poll_interval
      elim ended [ none ↦ pure none | some e ↦ pure (some (failed 504 e)) ]

    after_wait :
        (ended : Option String) (w : W)
        → (ended ≡ none → left w < n)
        → Ends (
            elim ended as (λ o. Io W (Option Fetched)) [
              | none ↦ pure none
              | some e ↦ pure (some (failed 504 e))
            ]
              w)
    after_wait none w h = λ none_is. h refl
    after_wait (some e) w h = λ none_is. cc

    wait_once-Leads : Leads AtMost Ends wait_once
    wait_once-Leads w h =
        let (ended, w1) = backend.poll lock_poll_interval w in
        after_wait ended w1 (λ fired. omega (arith, deadline.waited lock_poll_interval w fired))

    is_zero : (m : ℤ) → (leb_ℤ m (pos 0) && leb_ℤ (pos 0) m) ≡ true → m ≡ pos 0
    is_zero m h = ground arith

    -- A look at the lock, and the wait where it is held.
    looked :
        (lock : String) (w : W) (reply : Reply ℤ)
        → (redis.key_exists lock w).0 ≡ reply
        → AtMost w
        → Ends (
            elim reply as (λ r. Io W (Option Fetched)) [
              | err e ↦ pure (some (failed 503 e))
              | ok m ↦ if leb_ℤ m (pos 0) && leb_ℤ (pos 0) m then pure none else wait_once
            ]
              (redis.key_exists lock w).1)
    looked lock w (err e) same h = λ none_is. cc
    looked lock w (ok m) same h =
        if-Leads (λ t. t ≡ (redis.key_exists lock w).1) Ends _ _ _
          (λ free t here none_is.
            let zero_reply = same ∙ ap (λ i. ok i) (is_zero m free) in
            subst (λ u. left u < n) (sym here) (omega (arith, deadline.gone lock w zero_reply)))
          (λ held t here. wait_once-Leads t (
            subst AtMost (sym here)
              (no_more (redis.key_exists lock) (deadline.key_exists lock) w h)))
          _ refl

    wait_for_lock-Leads : (key lock : String) → Leads AtMost Ends (wait_for_lock env key lock)
    unfolding wait_for_lock
    wait_for_lock-Leads key lock w h =
        option-Leads AtMost Ends (get_l2 floats clock redis codec key w).0 _ _
          (λ s g. looked lock s _ refl g) (λ v s g none_is. cc)
          (get_l2 floats clock redis codec key w).1 (get_l2-Ensures key w h).0

    lock_round-Leads :
        (key : String) (ttl : Duration) (config : GatewayConfig Float)
        → Leads AtMost Ends (lock_round env key ttl config)
    unfolding lock_round
    lock_round-Leads key ttl config w h =
        let lock = distributed_lock_key env key in
        let lock_ttl =
          wrap64 (of_units config.backend_timeout_ms millisecond +ℤ lock_safety_margin) in
        let (reply, w1) = try_acquire_distributed_lock env lock lock_ttl w in
        after reply w1 (try_acquire_distributed_lock-Keeping lock lock_ttl w h)
      where
        after :
            (reply : Reply (String × Bool))
            → Leads AtMost Ends (elim reply [
              | err e ↦ pure (some (failed 503 e))
              | ok (token, true) ↦ do
                fetched ←
                    fetch_as_distributed_lock_owner env key
                      (distributed_lock_key env key)
                      token
                      ttl
                      config
                pure (some fetched)
              | ok (token, false) ↦ wait_for_lock env key (distributed_lock_key env key)
            ])
        after (err e) w h = λ none_is. cc
        after (ok (token, true)) w h = λ none_is. cc
        after (ok (token, false)) w h = wait_for_lock-Leads key (distributed_lock_key env key) w h

  -- If no call of Redis, of the clock or of the token's random source gives back any of the
  -- waiting context, and a wait that ends with its timer and a look at the lock that finds it gone
  -- each take some of it, then fetchWithDistributedLock answers within one more round than is left
  -- of the context, whatever else Redis, the codec and the backend do.
  pub fetch_with_distributed_lock-total :
      (deadline : Deadline) (key : String) (ttl : Duration) (config : GatewayConfig Float)
      (rounds : ℕ) (w : W)
      → deadline.left w < rounds
      → (r : Fetched) × ((fetch_with_distributed_lock env rounds key ttl config w).0 ≡ some r)
  unfolding fetch_with_distributed_lock
  fetch_with_distributed_lock-total deadline key ttl config zero w h = absurd (omega arith)
  fetch_with_distributed_lock-total deadline key ttl config (suc rounds) w h =
      let (result, w1) = lock_round env key ttl config w in
      let uses = lock_round-Leads deadline (deadline.left w) key ttl config w (omega arith) in
      elim (Option-cases result) [
        | inr (r, answered) ↦ (r, rw (answered, fetch_with_distributed_lock) refl)
        | inl again ↦
            let (r, later) =
              fetch_with_distributed_lock-total deadline key ttl config rounds w1
                (omega (arith, uses again)) in
            (r, rw (again, fetch_with_distributed_lock) later)
      ]
