-- ===== src/Shared/Restores.antt =====
-- `Reset` of gateway/adaptive_ttl_controller.go answers, and what its answer says.
use distributed_caching.Base.{
  ℕ, zero, suc, ◌<◌, ◌≤◌, ◌≡◌, refl, sym, subst, ◌∙◌, Bool, true, false, String, string_keys,
  Option, none, some, Option-cases, Bool-cases, inl, inr, arith,
}
use distributed_caching.Adaptive.{
  AdaptiveTtlController, AdaptiveTtlSnapshot, BackendLoadSignals, apply_snapshot,
}
use distributed_caching.Fetch.{Env}
use distributed_caching.Floats.{FloatOrder}
use distributed_caching.Lock.Holder.{LockWorks}
use distributed_caching.Outside.{Io, Reply, ok, err, Codec, RoundTrips}
use distributed_caching.Shared.{Control, try_acquire_controller_lock, synchronize_from_redis}
use distributed_caching.Shared.Fresh.{SnapshotWorks, IsReset, reset-IsReset, synchronize-fresh}
use distributed_caching.Shared.Reset.{
  reset_snapshot, reset_with, reset_round, reset, wait_for_controller_lock,
  adaptive_ttl_controller_lock_poll_interval,
}
use distributed_caching.Time.{Duration}

module _ {W Float : Type 0} (env : Env W Float) (codec : Codec (AdaptiveTtlSnapshot Float))
    (signals : Io W (Reply (BackendLoadSignals Float))) (wait : Duration → Io W Bool) where
  open env use {floats}

  -- What is left of the context: an interval that is over before the context was uses some of it up.
  pub record Remaining : Type 0 where
    pub left : W → ℕ
    pub acquires : (w : W) → left (try_acquire_controller_lock env codec signals w).1 ≤ left w
    pub uses : (d : Duration) (w : W) → (wait d w).0 ≡ true → left (wait d w).1 < left w

  module _ (ends : Remaining) (enabled : Bool) where
    open ends use {left, acquires, uses}

    reset_with-left :
        (r : Reply (String × Bool)) (s : Control W Float)
        → (reset_with env codec signals wait enabled r s).0 ≡ none
        → left (reset_with env codec signals wait enabled r s).1.world < left s.world
    unfolding reset_with wait_for_controller_lock
    reset_with-left (err x) s again = absurd (cc again)
    reset_with-left (ok (token, true)) s again = absurd (cc again)
    reset_with-left (ok (token, false)) s again =
        elim (Bool-cases (wait adaptive_ttl_controller_lock_poll_interval s.world).0) [
          | inl waited ↦
              rw (waited, wait_for_controller_lock)
                (uses adaptive_ttl_controller_lock_poll_interval s.world waited)
          | inr ended ↦
              let answered : (wait_for_controller_lock env codec signals wait s.world).0
                  ≡ some (err "context canceled") =
                rw (ended, wait_for_controller_lock) refl in
              absurd (cc (answered, again))
        ]

    reset-total :
        (rounds : ℕ) (s : Control W Float)
        → left s.world < rounds
        → (r : Reply (Unit {0})) × ((reset env codec signals wait rounds enabled s).0 ≡ some r)
    unfolding reset reset_round
    reset-total zero s h = absurd (omega arith)
    reset-total (suc rounds) s h =
        let (reply, w) = try_acquire_controller_lock env codec signals s.world in
        let u = record s { world = w } in
        let t = (reset_with env codec signals wait enabled reply u).1 in
        elim (Option-cases (reset_with env codec signals wait enabled reply u).0) [
          | inr (answer, e) ↦ (answer, rw (e, reset) refl)
          | inl e ↦
              let less = reset_with-left reply u e in
              let (r, later) = reset-total rounds t (omega (arith, acquires s.world)) in
              (r, rw (e, reset) later)
        ]

  module _ (value : W → String → Option String) (works : SnapshotWorks env codec signals wait value)
      (lock : LockWorks env value) (enabled : Bool)
      (trip : RoundTrips codec (reset_snapshot env codec signals wait enabled)) where
    -- What `Reset` answers, and what holds then.
    abbrev pub Restores : Control W Float → Reply (Unit {0}) → Control W Float → Type 0
    Restores s (ok _) t =
        (b : AdaptiveTtlController Float)
        → (t.controller
            ≡ apply_snapshot ⦃o = floats⦄ (reset_snapshot env codec signals wait enabled) b)
          × ((synchronize_from_redis env codec signals (record t { controller = b })).0 ≡ ok tt)
          × ((synchronize_from_redis env codec signals (record t { controller = b })).1.controller
              ≡ t.controller)
    Restores s (err _) t = t.controller ≡ s.controller

    -- If floats obey their order laws, GET and SET work on the texts of Redis, the locks work, the
    -- codec round-trips the initial snapshot, and the waiting context allows fewer polls of the
    -- lock than the loop has rounds, then Reset answers; without an error the controller has the
    -- initial state, which any controller that synchronizes with Redis then gets, and with an
    -- error the controller is as before.
    pub reset-Restores :
        (law : FloatOrder floats) (ends : Remaining) (rounds : ℕ) (s : Control W Float)
        → ends.left s.world < rounds
        → (r : Reply (Unit {0})) × ((reset env codec signals wait rounds enabled s).0 ≡ some r)
          × Restores s r (reset env codec signals wait rounds enabled s).1
    unfolding apply_snapshot
    reset-Restores law ends rounds s h =
        let t = (reset env codec signals wait rounds enabled s).1 in
        let (r, answered) = reset-total ends enabled rounds s h in
        let done =
          subst (λ a. IsReset env codec signals wait value works lock enabled trip s (a, t))
            answered
            (reset-IsReset env codec signals wait value works lock enabled trip rounds s) in
        (r, answered, restored t r done)
      where
        restored :
            (t : Control W Float) (r : Reply (Unit {0}))
            → IsReset env codec signals wait value works lock enabled trip s (some r, t)
            → Restores s r t
        restored t (err _) same = same
        restored t (ok _) (same, stored) = λ b.
            let (fine, read) =
              synchronize-fresh env codec signals wait value works lock enabled trip law b t.world
                stored in
            (same, fine, read ∙ sym same)
