-- ===== src/Shared/Frame.antt =====
-- `Reset` of gateway/adaptive_ttl_controller.go writes nothing but the snapshot and its lock, in a
-- Redis that works.
use distributed_caching.Base.{
  ℕ, zero, suc, ◌≡◌, refl, ◌∙◌, Bool, true, false, String, ◌==◌, string_keys, Option, some,
  Option-cases, Bool-cases, inl, inr, arith,
}
use distributed_caching.Base.Int.{pos}
use distributed_caching.Adaptive.{AdaptiveTtlSnapshot, BackendLoadSignals}
use distributed_caching.Fetch.{Env}
use distributed_caching.Lock.{try_acquire_distributed_lock}
use distributed_caching.Lock.Holder.{LockWorks, release_distributed_lock-value}
use distributed_caching.Outside.{Io, ◌>>=◌, Reply, Reply-cases, ok, err, Codec}
use distributed_caching.Outside.Keeping.{Keeping, option-kept}
use distributed_caching.Shared.{
  Control, save_shared_snapshot, release_controller_lock, try_acquire_controller_lock,
  adaptive_ttl_snapshot_redis_key, adaptive_ttl_controller_lock_redis_key,
  adaptive_ttl_controller_lock_ttl,
}
use distributed_caching.Shared.Fresh.{SnapshotWorks}
use distributed_caching.Shared.Reset.{
  reset_snapshot, reset_as_owner, reset_with_lock, reset_with, reset_round, reset,
  wait_for_controller_lock, adaptive_ttl_controller_lock_poll_interval,
}
use distributed_caching.Time.{Duration}

module _ {W Float : Type 0} (env : Env W Float) (codec : Codec (AdaptiveTtlSnapshot Float))
    (signals : Io W (Reply (BackendLoadSignals Float))) (wait : Duration → Io W Bool)
    (value : W → String → Option String) (works : SnapshotWorks env codec signals wait value)
    (lock : LockWorks env value) where
  open env use {redis, backend}

  -- A lock is taken without any other key being written.
  try_acquire_distributed_lock-value :
      (name j : String) (ttl : Duration) (w : W)
      → (name == j) ≡ false
      → value (try_acquire_distributed_lock env name ttl w).1 j ≡ value w j
  unfolding try_acquire_distributed_lock
  try_acquire_distributed_lock-value name j ttl w other =
      let w1 = (backend.token w).1 in
      let same = lock.token_value w j in
      elim (Reply-cases (backend.token w).0) [
        | inr (e, failed) ↦ rw (failed, ◌>>=◌, try_acquire_distributed_lock) same
        | inl (token, made) ↦ elim (Option-cases (value w1 name)) [
          | inl free ↦
              rw (made, ◌>>=◌, try_acquire_distributed_lock)
                (rw (lock.set_nx_reply name token ttl w1 free, ◌>>=◌)
                  (lock.set_nx_value name token ttl w1 j free ∙ ground (arith, same)))
          | inr (t, held) ↦
              rw (made, ◌>>=◌, try_acquire_distributed_lock)
                (rw (lock.set_nx_taken name token t ttl w1 held, ◌>>=◌) same)
        ]
      ]

  -- Waiting writes nothing, and neither key of the controller is the one looked at.
  module _ (waits : (d : Duration) (w : W) (j : String) → value (wait d w).1 j ≡ value w j)
      (j : String) (not_snapshot : (adaptive_ttl_snapshot_redis_key == j) ≡ false)
      (not_lock : (adaptive_ttl_controller_lock_redis_key == j) ≡ false) (o : Option String) where
    abbrev Has : Control W Float → Type 0
    Has s = value s.world j ≡ o

    save_shared_snapshot-value :
        (snapshot : AdaptiveTtlSnapshot Float) (w : W)
        → value (save_shared_snapshot env codec signals snapshot w).1 j ≡ value w j
    unfolding save_shared_snapshot
    save_shared_snapshot-value snapshot w = elim (Reply-cases (codec.encode snapshot)) [
      | inr (e, failed) ↦ rw (failed, save_shared_snapshot) refl
      | inl (t, done) ↦
          rw (done, save_shared_snapshot)
            (works.set_value adaptive_ttl_snapshot_redis_key t (pos 0) w j ∙ rw not_snapshot refl)
    ]

    reset_as_owner-Keeping :
        (enabled : Bool) → Keeping Has (reset_as_owner env codec signals wait enabled)
    unfolding reset_as_owner
    reset_as_owner-Keeping enabled s h =
        let snapshot = reset_snapshot env codec signals wait enabled in
        let kept = save_shared_snapshot-value snapshot s.world ∙ h in
        elim (Reply-cases (save_shared_snapshot env codec signals snapshot s.world).0) [
          | inl (_, e) ↦ rw (e, reset_as_owner) kept
          | inr (_, e) ↦ rw (e, reset_as_owner) kept
        ]

    reset_with-Keeping :
        (enabled : Bool) (r : Reply (String × Bool))
        → Keeping Has (reset_with env codec signals wait enabled r)
    unfolding reset_with reset_with_lock wait_for_controller_lock release_controller_lock
    reset_with-Keeping enabled (err e) s h = h
    reset_with-Keeping enabled (ok (token, true)) s h =
        let t = (reset_as_owner env codec signals wait enabled s).1 in
        release_distributed_lock-value env value lock adaptive_ttl_controller_lock_redis_key token j
          t.world
        ∙ rw not_lock (reset_as_owner-Keeping enabled s h)
    reset_with-Keeping enabled (ok (token, false)) s h =
        let kept = waits adaptive_ttl_controller_lock_poll_interval s.world j ∙ h in
        elim (Bool-cases (wait adaptive_ttl_controller_lock_poll_interval s.world).0) [
          | inl waited ↦ rw (waited, wait_for_controller_lock) kept
          | inr ended ↦ rw (ended, wait_for_controller_lock) kept
        ]

    reset_round-Keeping :
        (enabled : Bool) → Keeping Has (reset_round env codec signals wait enabled)
    unfolding reset_round try_acquire_controller_lock
    reset_round-Keeping enabled s h =
        let (reply, w) = try_acquire_controller_lock env codec signals s.world in
        reset_with-Keeping enabled reply (record s { world = w })
          (try_acquire_distributed_lock-value adaptive_ttl_controller_lock_redis_key j
              adaptive_ttl_controller_lock_ttl s.world not_lock
            ∙ h)

    pub reset-Keeping :
        (rounds : ℕ) (enabled : Bool) → Keeping Has (reset env codec signals wait rounds enabled)
    unfolding reset
    reset-Keeping zero enabled s h = h
    reset-Keeping (suc rounds) enabled s h =
        let (result, t) = reset_round env codec signals wait enabled s in
        let kept = reset_round-Keeping enabled s h in
        option-kept Has result (reset env codec signals wait rounds enabled t)
          (λ answer. (some answer, t)) (reset-Keeping rounds enabled t kept) (λ answer. kept)
