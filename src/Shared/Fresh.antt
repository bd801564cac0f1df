-- ===== src/Shared/Fresh.antt =====
-- What `Reset` of gateway/adaptive_ttl_controller.go leaves behind, and how its loop ends.
use distributed_caching.Base.{
  ℕ, zero, suc, ◌≡◌, refl, subst, ◌∙◌, Bool, true, false, String, ◌==◌, string_keys, Option, none,
  some, if◌then◌else◌, Option-cases, Bool-cases, inl, inr, arith, ap,
}
use distributed_caching.Base.Int.{pos}
use distributed_caching.Adaptive.{
  AdaptiveTtlController, AdaptiveTtlSnapshot, disabled, warning, BackendLoadSignals, apply_snapshot,
}
use distributed_caching.Fetch.{Env}
use distributed_caching.Floats.{Floats, FloatOrder}
use distributed_caching.Lock.Holder.{LockWorks, release_distributed_lock-value}
use distributed_caching.Outside.{Io, ◌>>=◌, Reply, Reply-cases, ok, err, Codec, RoundTrips}
use distributed_caching.Shared.{
  Control, remote, save_shared_snapshot, release_controller_lock, try_acquire_controller_lock,
  adaptive_ttl_snapshot_redis_key, adaptive_ttl_controller_lock_redis_key, load_shared_snapshot,
  synchronize_from_redis, decode_snapshot, is_missing,
}
use distributed_caching.Shared.Reset.{
  reset_snapshot, reset_as_owner, reset_with_lock, reset_with, reset_round, reset,
  wait_for_controller_lock, adaptive_ttl_controller_lock_poll_interval,
}
use distributed_caching.Time.{Duration}

-- A float above zero is not at most zero.
pub not_le_of_lt :
    {Float : Type 0} {o : Floats Float} (law : FloatOrder o) (x y : Float)
    → o.lt y x ≡ true
    → o.le x y ≡ false
not_le_of_lt {o = o} law x y above = elim (Bool-cases (o.le x y)) [
  | inr apart ↦ apart
  | inl below ↦
      let itself = law.lt_of_le_lt x y x below above in
      absurd (cc (itself, law.not_lt_of_le x x (law.le_of_lt x x itself)))
]

module _ {W Float : Type 0} (env : Env W Float) (codec : Codec (AdaptiveTtlSnapshot Float))
    (signals : Io W (Reply (BackendLoadSignals Float))) (wait : Duration → Io W Bool)
    (value : W → String → Option String) where
  open env use {floats, redis}

  -- The documented effect of GET and SET on texts, and that waiting changes no text.
  pub record SnapshotWorks : Type 0 where
    pub get : (k : String) (w : W) → redis.get k w ≡ (ok (value w k), w)
    pub set_value :
        (k t : String) (ttl : Duration) (w : W) (j : String)
        → value (redis.set k t ttl w).1 j ≡ (if k == j then some t else value w j)

  module _ (works : SnapshotWorks) (lock : LockWorks env value) (enabled : Bool)
      (trip : RoundTrips codec (reset_snapshot env codec signals wait enabled)) where
    abbrev pub fresh : AdaptiveTtlController Float → AdaptiveTtlController Float
    fresh c = apply_snapshot ⦃o = floats⦄ (reset_snapshot env codec signals wait enabled) c

    -- What an answer of `Reset` says of the controller and of the shared state.
    abbrev pub IsReset : Control W Float → Option (Reply (Unit {0})) × Control W Float → Type 0
    IsReset s (some (ok _), t) =
        (t.controller ≡ fresh s.controller)
        × (value t.world adaptive_ttl_snapshot_redis_key ≡ some trip.text)
    IsReset s (some (err _), t) = t.controller ≡ s.controller
    IsReset s (none, t) = t.controller ≡ s.controller

    saved :
        (w : W)
        → value
            (redis.set adaptive_ttl_snapshot_redis_key trip.text (pos 0) w).1
            adaptive_ttl_snapshot_redis_key
          ≡ some trip.text
    saved w =
        works.set_value adaptive_ttl_snapshot_redis_key trip.text (pos 0) w
          adaptive_ttl_snapshot_redis_key

    release-snapshot :
        (token : String) (w : W)
        → value
            (release_controller_lock env codec signals token w).1
            adaptive_ttl_snapshot_redis_key
          ≡ value w adaptive_ttl_snapshot_redis_key
    unfolding release_controller_lock
    release-snapshot token w =
        release_distributed_lock-value env value lock adaptive_ttl_controller_lock_redis_key token
          adaptive_ttl_snapshot_redis_key w

    save_shared_snapshot-set :
        (w : W)
        → save_shared_snapshot env codec signals (reset_snapshot env codec signals wait enabled) w
          ≡ redis.set adaptive_ttl_snapshot_redis_key trip.text (pos 0) w
    unfolding save_shared_snapshot
    save_shared_snapshot-set w = rw (trip.written, save_shared_snapshot) refl

    reset_with_lock-IsReset :
        (token : String) (s : Control W Float)
        → IsReset s (
          some (reset_with_lock env codec signals wait enabled token s).0,
          (reset_with_lock env codec signals wait enabled token s).1,
        )
    unfolding reset_with_lock reset_as_owner
    reset_with_lock-IsReset token s =
        let same = save_shared_snapshot-set s.world in
        let stored =
          release-snapshot token
            (save_shared_snapshot env codec signals (reset_snapshot env codec signals wait enabled)
              s.world).1
          ∙ ap (λ r. value r.1 adaptive_ttl_snapshot_redis_key) same
          ∙ saved s.world in
        elim (Reply-cases
          (save_shared_snapshot env codec signals (reset_snapshot env codec signals wait enabled)
            s.world).0) [
              | inl (_, e) ↦ rw (e, reset_with_lock, reset_as_owner) (refl, stored)
              | inr (_, e) ↦ rw (e, reset_with_lock, reset_as_owner) refl
            ]

    wait-IsReset :
        (s : Control W Float)
        → IsReset s (remote (wait_for_controller_lock env codec signals wait) s)
    unfolding wait_for_controller_lock
    wait-IsReset s = elim (Bool-cases (wait adaptive_ttl_controller_lock_poll_interval s.world).0) [
      | inl waited ↦ rw (waited, wait_for_controller_lock) refl
      | inr ended ↦ rw (ended, wait_for_controller_lock) refl
    ]

    reset_with-IsReset :
        (r : Reply (String × Bool)) (s : Control W Float)
        → IsReset s (reset_with env codec signals wait enabled r s)
    unfolding reset_with
    reset_with-IsReset (err x) s = refl
    reset_with-IsReset (ok (token, false)) s = wait-IsReset s
    reset_with-IsReset (ok (token, true)) s = reset_with_lock-IsReset token s

    reset_round-IsReset :
        (s : Control W Float) → IsReset s (reset_round env codec signals wait enabled s)
    unfolding reset_round
    reset_round-IsReset s =
        let (reply, w) = try_acquire_controller_lock env codec signals s.world in
        reset_with-IsReset reply (record s { world = w })

    -- A round that starts another one leaves the controller as it was.
    IsReset-after :
        (s t : Control W Float) (r : Option (Reply (Unit {0})) × Control W Float)
        → t.controller ≡ s.controller
        → IsReset t r
        → IsReset s r
    IsReset-after s t (some (ok _), u) same (a, b) = (a ∙ ap fresh same, b)
    IsReset-after s t (some (err _), u) same h = h ∙ same
    IsReset-after s t (none, u) same h = h ∙ same

    pub reset-IsReset :
        (rounds : ℕ) (s : Control W Float)
        → IsReset s (reset env codec signals wait rounds enabled s)
    unfolding reset
    reset-IsReset zero s = refl
    reset-IsReset (suc rounds) s =
        let first = reset_round-IsReset s in
        let t = (reset_round env codec signals wait enabled s).1 in
        elim (Option-cases (reset_round env codec signals wait enabled s).0) [
          | inr (answer, e) ↦ rw (e, reset) (subst (λ r. IsReset s (r, t)) e first)
          | inl e ↦
              rw (e, reset)
                (IsReset-after s t (reset env codec signals wait rounds enabled t)
                  (subst (λ r. IsReset s (r, t)) e first) (reset-IsReset rounds t))
        ]

    decode_snapshot-fresh :
        FloatOrder floats
        → decode_snapshot env codec signals trip.text
          ≡ ok (reset_snapshot env codec signals wait enabled)
    unfolding decode_snapshot is_missing
    decode_snapshot-fresh law =
        let above = not_le_of_lt law _ _ (law.decimal_pos 10 1 (omega arith) (omega arith)) in
        rw (trip.read_back, decode_snapshot) (rw above (by_state enabled))
      where
        by_state :
            (b : Bool)
            → (if is_missing (if b then warning else disabled)
                then err "adaptive TTL state is missing in Redis"
                else ok (reset_snapshot env codec signals wait b))
              ≡ ok (reset_snapshot env codec signals wait b)
        by_state true = refl
        by_state false = refl

    -- Another controller that reads the shared state has it too.
    pub synchronize-fresh :
        FloatOrder floats
        → (b : AdaptiveTtlController Float) (w : W)
        → value w adaptive_ttl_snapshot_redis_key ≡ some trip.text
        → ((synchronize_from_redis env codec signals (record { controller = b; world = w })).0
            ≡ ok tt)
          × ((synchronize_from_redis env codec signals
                (record { controller = b; world = w })).1.controller
              ≡ fresh b)
    unfolding synchronize_from_redis load_shared_snapshot
    synchronize-fresh law b w stored =
        let loaded : (load_shared_snapshot env codec signals w).0
            ≡ ok (reset_snapshot env codec signals wait enabled) =
          rw (works.get adaptive_ttl_snapshot_redis_key w, ◌>>=◌, load_shared_snapshot, stored)
            (decode_snapshot-fresh law) in
        rw (loaded, synchronize_from_redis) (refl, refl)
