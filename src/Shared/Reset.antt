-- ===== src/Shared/Reset.antt =====
-- `Reset` of gateway/adaptive_ttl_controller.go: the shared state after a new configuration.
use distributed_caching.Base.{
  ℕ, zero, suc, ◌*◌, Bool, true, false, String, Option, none, some, if◌then◌else◌,
}
use distributed_caching.Base.Int.{pos}
use distributed_caching.Adaptive.{
  AdaptiveTtlSnapshot, disabled, warning, BackendLoadSignals, adaptive_ttl_initial_factor,
  apply_snapshot,
}
use distributed_caching.Fetch.{Env}
use distributed_caching.Outside.{Io, pure, ◌>>=◌, ◌>>◌, Reply, ok, err, Codec}
use distributed_caching.Shared.{
  Control, remote, save_shared_snapshot, try_acquire_controller_lock, release_controller_lock,
}
use distributed_caching.Time.{Duration, millisecond}

abbrev pub adaptive_ttl_controller_lock_poll_interval : Duration
adaptive_ttl_controller_lock_poll_interval = pos (25 * millisecond)

module _ {W Float : Type 0} (env : Env W Float) (codec : Codec (AdaptiveTtlSnapshot Float))
    (signals : Io W (Reply (BackendLoadSignals Float)))
    -- Whether the interval was over before the context was.
    (wait_for_adaptive_ttl_interval : Duration → Io W Bool) where
  open env use {floats}

  abbrev pub reset_snapshot : Bool → AdaptiveTtlSnapshot Float
  reset_snapshot enabled = record {
    factor = adaptive_ttl_initial_factor ⦃o = floats⦄;
    state = if enabled then warning else disabled;
    consecutive_stable_readings = pos 0;
    consecutive_congested_readings = pos 0;
    last_backend_p99_latency_ms = floats.decimal 0 0;
  }

  unfoldable pub reset_as_owner : Bool → Io (Control W Float) (Reply (Unit {0}))
  reset_as_owner enabled s =
      let (reply, w) = save_shared_snapshot env codec signals (reset_snapshot enabled) s.world in
      elim reply [
        | err e ↦ (err e, record s { world = w })
        | ok _ ↦ (
          ok tt,
          record {
            controller = apply_snapshot ⦃o = floats⦄ (reset_snapshot enabled) s.controller;
            world = w;
          },
        )
      ]

  unfoldable pub reset_with_lock : Bool → String → Io (Control W Float) (Reply (Unit {0}))
  reset_with_lock enabled token = do
    result ← reset_as_owner enabled
    remote (release_controller_lock env codec signals token)
    pure result

  -- Another gateway has the lock: `none` starts another round.
  unfoldable pub wait_for_controller_lock : Io W (Option (Reply (Unit {0})))
  wait_for_controller_lock = do
    waited ← wait_for_adaptive_ttl_interval adaptive_ttl_controller_lock_poll_interval
    if waited then pure none else pure (some (err "context canceled"))

  -- A round, once it is known whether the lock was acquired.
  unfoldable pub reset_with :
      Bool → Reply (String × Bool) → Io (Control W Float) (Option (Reply (Unit {0})))
  reset_with enabled (err e) = pure (some (err e))
  reset_with enabled (ok (token, false)) = remote wait_for_controller_lock
  reset_with enabled (ok (token, true)) = do
    result ← reset_with_lock enabled token
    pure (some result)

  unfoldable pub reset_round : Bool → Io (Control W Float) (Option (Reply (Unit {0})))
  reset_round enabled = do
    reply ← remote (try_acquire_controller_lock env codec signals)
    reset_with enabled reply

  -- The loop, for so many rounds; `none` when they are used up.
  unfoldable pub reset : ℕ → Bool → Io (Control W Float) (Option (Reply (Unit {0})))
  reset zero enabled s = (none, s)
  reset (suc rounds) enabled s =
      let (result, t) = reset_round enabled s in
      let again = reset rounds enabled t in
      elim result [ some answer ↦ (some answer, t) | none ↦ again ]
