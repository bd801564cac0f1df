-- ===== src/Shared/Snapshot.antt =====
-- What the gateways of gateway/adaptive_ttl_controller.go pass to each other through Redis.
use distributed_caching.Base.{◌≡◌, ◌≢◌, refl, false, String, Option, some}
use distributed_caching.Base.Int.{pos}
use distributed_caching.Adaptive.{
  AdaptiveTtlController, AdaptiveTtlSnapshot, BackendLoadSignals, snapshot, apply_snapshot,
}
use distributed_caching.Config.{GatewayConfig}
use distributed_caching.Fetch.{Env}
use distributed_caching.Lock.Holder.{LockWorks, not_held}
use distributed_caching.Outside.{Io, ◌>>=◌, Reply, ok, Codec, RoundTrips}
use distributed_caching.Shared.{
  Control, save_own, synchronize_from_redis, save_shared_snapshot, load_shared_snapshot,
  decode_snapshot, adaptive_ttl_snapshot_redis_key, is_missing, update_with_lock, update_as_owner,
  release_controller_lock, adaptive_ttl_controller_lock_redis_key,
}

module _ {W Float : Type 0} (env : Env W Float) (codec : Codec (AdaptiveTtlSnapshot Float))
    (signals : Io W (Reply (BackendLoadSignals Float))) where
  open env use {floats, redis}

  module _ (a : AdaptiveTtlController Float) (trip : RoundTrips codec (snapshot ⦃o = floats⦄ a))
      (positive : floats.le a.current_factor (floats.decimal 0 0) ≡ false)
      (named : is_missing a.current_state ≡ false) where
    abbrev pub saved : W → W
    saved w = (redis.set adaptive_ttl_snapshot_redis_key trip.text (pos 0) w).1

    save_shared_snapshot-saved :
        (w : W) → (save_shared_snapshot env codec signals (snapshot ⦃o = floats⦄ a) w).1 ≡ saved w
    unfolding save_shared_snapshot
    save_shared_snapshot-saved w = rw (trip.written, save_shared_snapshot) refl

    decode_snapshot-saved :
        decode_snapshot env codec signals trip.text ≡ ok (snapshot ⦃o = floats⦄ a)
    unfolding decode_snapshot snapshot
    decode_snapshot-saved = rw (trip.read_back, decode_snapshot) (rw (positive, named) refl)

    load_shared_snapshot-saved :
        (w : W)
        → redis.get adaptive_ttl_snapshot_redis_key w ≡ (ok (some trip.text), w)
        → load_shared_snapshot env codec signals w ≡ (ok (snapshot ⦃o = floats⦄ a), w)
    unfolding load_shared_snapshot
    load_shared_snapshot-saved w h =
        rw (h, ◌>>=◌, load_shared_snapshot) (rw decode_snapshot-saved refl)

    -- If the codec round-trips the snapshot of a controller, Redis reads back the snapshot key as
    -- it was set, the factor is above zero and the state is not empty, then another controller
    -- that synchronizes after the first one saved has the state of the first.
    pub synchronize_from_redis-save :
        (b : AdaptiveTtlController Float) (w : W)
        → redis.get adaptive_ttl_snapshot_redis_key (saved w) ≡ (ok (some trip.text), saved w)
        → (synchronize_from_redis env codec signals (record {
          controller = b;
          world = (save_own env codec signals (record { controller = a; world = w })).1.world;
        })).1.controller
          ≡ a
    unfolding synchronize_from_redis save_own apply_snapshot snapshot
    synchronize_from_redis-save b w kept =
        rw (save_shared_snapshot-saved w)
          (rw (load_shared_snapshot-saved (saved w) kept, synchronize_from_redis) refl)

  -- In a Redis that works, the controller lock is not held with the token of the gateway that
  -- updated the shared state under it, whether or not the update failed.
  pub update_with_lock-released :
      (value : W → String → Option String) (works : LockWorks env value)
      (config : GatewayConfig Float) (token : String) (s : Control W Float)
      → value
          (update_with_lock env codec signals config token s).1.world
          adaptive_ttl_controller_lock_redis_key
        ≢ some token
  unfolding update_with_lock release_controller_lock
  update_with_lock-released value works config token s =
      not_held env value works adaptive_ttl_controller_lock_redis_key token
        (update_as_owner env codec signals config s).1.world
