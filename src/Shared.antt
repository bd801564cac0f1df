-- ===== src/Shared.antt =====
-- The state of gateway/adaptive_ttl_controller.go that the gateways share in Redis: one of them
-- reads the load and writes, under a lock, and the others read what it wrote.
pub mod Snapshot
pub mod Reset
pub mod Fresh
pub mod Restores
pub mod Frame
use distributed_caching.Base.{
  ◌*◌, Bool, true, false, String, Option, none, some, ◌==◌, string_keys, if◌then◌else◌,
}
use distributed_caching.Base.Int.{ℤ, pos}
use distributed_caching.Adaptive.{
  AdaptiveTtlController, AdaptiveTtlSnapshot, AdaptiveTtlState, disabled, other, BackendLoadSignals,
  adaptive_ttl_initial_factor, apply_snapshot, set_disabled, snapshot, process_signals,
}
use distributed_caching.Config.{GatewayConfig}
use distributed_caching.Fetch.{Env}
use distributed_caching.Lock.{try_acquire_distributed_lock, release_distributed_lock}
use distributed_caching.Outside.{Io, pure, ◌>>=◌, ◌>>◌, Reply, ok, err, Codec}
use distributed_caching.Time.{Duration, second}

abbrev pub adaptive_ttl_snapshot_redis_key : String
adaptive_ttl_snapshot_redis_key = "gateway:adaptive-ttl:snapshot"

abbrev pub adaptive_ttl_controller_lock_redis_key : String
adaptive_ttl_controller_lock_redis_key = "gateway:adaptive-ttl:controller-lock"

abbrev pub adaptive_ttl_controller_lock_ttl : Duration
adaptive_ttl_controller_lock_ttl = pos (5 * second)

-- `snapshot.State == ""`
unfoldable pub is_missing : AdaptiveTtlState → Bool
is_missing (other s) = s == ""
is_missing _ = false

-- The controller and the world.
pub record Control (W Float : Type 0) : Type 0 where
  pub controller : AdaptiveTtlController Float
  pub world : W

abbrev pub remote : {W Float A : Type 0} → Io W A → Io (Control W Float) A
remote m s = let (a, w) = m s.world in (a, record s { world = w })

module _ {W Float : Type 0} (env : Env W Float) (codec : Codec (AdaptiveTtlSnapshot Float))
    (read_backend_load_signals : Io W (Reply (BackendLoadSignals Float))) where
  open env use {floats, redis}

  abbrev pub initial_snapshot : AdaptiveTtlSnapshot Float
  initial_snapshot = record {
    factor = adaptive_ttl_initial_factor ⦃o = floats⦄;
    state = disabled;
    consecutive_stable_readings = pos 0;
    consecutive_congested_readings = pos 0;
    last_backend_p99_latency_ms = floats.decimal 0 0;
  }

  unfoldable pub decode_snapshot : String → Reply (AdaptiveTtlSnapshot Float)
  decode_snapshot text = elim (codec.decode text) [
    | none ↦ err "decode adaptive TTL snapshot"
    | some s ↦
        if floats.le s.factor (floats.decimal 0 0)
        then err "invalid adaptive TTL factor in Redis"
        else if is_missing s.state
        then err "adaptive TTL state is missing in Redis"
        else ok s
  ]

  -- Another gateway wrote a snapshot between the two reads.
  unfoldable pub read_again : Io W (Reply (AdaptiveTtlSnapshot Float))
  read_again = do
    reply ← redis.get adaptive_ttl_snapshot_redis_key
    elim reply [
      | err e ↦ pure (err e)
      | ok none ↦ pure (err "read adaptive TTL snapshot")
      | ok (some text) ↦ pure (decode_snapshot text)
    ]

  unfoldable pub create_snapshot : Io W (Reply (AdaptiveTtlSnapshot Float))
  create_snapshot = elim (codec.encode initial_snapshot) [
    | err e ↦ pure (err e)
    | ok text ↦ do
      created ← redis.set_nx adaptive_ttl_snapshot_redis_key text (pos 0)
      elim created [
        | err e ↦ pure (err e)
        | ok true ↦ pure (ok initial_snapshot)
        | ok false ↦ read_again
      ]
  ]

  unfoldable pub load_shared_snapshot : Io W (Reply (AdaptiveTtlSnapshot Float))
  load_shared_snapshot = do
    reply ← redis.get adaptive_ttl_snapshot_redis_key
    elim reply [
      | err e ↦ pure (err e)
      | ok none ↦ create_snapshot
      | ok (some text) ↦ pure (decode_snapshot text)
    ]

  unfoldable pub save_shared_snapshot : AdaptiveTtlSnapshot Float → Io W (Reply (Unit {0}))
  save_shared_snapshot s = elim (codec.encode s) [
    | err e ↦ pure (err e)
    | ok text ↦ redis.set adaptive_ttl_snapshot_redis_key text (pos 0)
  ]

  unfoldable pub synchronize_from_redis : Io (Control W Float) (Reply (Unit {0}))
  synchronize_from_redis s =
      let (reply, w) = load_shared_snapshot s.world in
      elim reply [
        | err e ↦ (err e, record s { world = w })
        | ok shared ↦ (
          ok tt,
          record { controller = apply_snapshot ⦃o = floats⦄ shared s.controller; world = w },
        )
      ]

  -- `saveSharedSnapshot` of the controller's own state.
  unfoldable pub save_own : Io (Control W Float) (Reply (Unit {0}))
  save_own s = remote (save_shared_snapshot (snapshot ⦃o = floats⦄ s.controller)) s

  unfoldable pub update_from_signals : GatewayConfig Float → Io (Control W Float) (Reply (Unit {0}))
  update_from_signals config s =
      let (reply, w) = read_backend_load_signals s.world in
      elim reply [
        | err e ↦ (err e, record s { world = w })
        | ok signals ↦ save_own (record {
          controller = process_signals ⦃o = floats⦄ config signals s.controller;
          world = w;
        })
      ]

  -- The body of `updateSharedState` under the lock.
  unfoldable pub update_as_owner : GatewayConfig Float → Io (Control W Float) (Reply (Unit {0}))
  update_as_owner config = do
    reply ← synchronize_from_redis
    elim reply [
      | err e ↦ pure (err e)
      | ok _ ↦ if config.adaptive_ttl_enabled then update_from_signals config else λ s.
          save_own (record s { controller = set_disabled ⦃o = floats⦄ s.controller })
    ]

  unfoldable pub try_acquire_controller_lock : Io W (Reply (String × Bool))
  try_acquire_controller_lock =
      try_acquire_distributed_lock env adaptive_ttl_controller_lock_redis_key
        adaptive_ttl_controller_lock_ttl

  -- The script is that of the distributed lock.
  unfoldable pub release_controller_lock : String → Io W (Unit {0})
  release_controller_lock token =
      release_distributed_lock env adaptive_ttl_controller_lock_redis_key token

  unfoldable pub update_with_lock :
      GatewayConfig Float → String → Io (Control W Float) (Reply (Unit {0}))
  update_with_lock config token = do
    result ← update_as_owner config
    remote (release_controller_lock token)
    pure result

  -- Once it is known whether the lock was acquired.
  unfoldable pub update_with :
      GatewayConfig Float → Reply (String × Bool) → Io (Control W Float) (Reply (Unit {0}))
  update_with config (err e) = pure (err e)
  update_with config (ok (token, false)) = synchronize_from_redis
  update_with config (ok (token, true)) = update_with_lock config token

  unfoldable pub update_shared_state : GatewayConfig Float → Io (Control W Float) (Reply (Unit {0}))
  update_shared_state config = do
    reply ← remote try_acquire_controller_lock
    update_with config reply
