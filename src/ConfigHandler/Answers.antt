-- ===== src/ConfigHandler/Answers.antt =====
-- The endpoint of gateway/cache_config_handler.go answers, and what an answer with status 200 says.
use distributed_caching.Base.{ℕ, ◌<◌, ◌≡◌, ◌⊎◌, inl, inr, refl, ap, Bool, Option, some, String}
use distributed_caching.Base.Int.{ℤ}
use distributed_caching.Adaptive.{
  AdaptiveTtlController, AdaptiveTtlSnapshot, BackendLoadSignals, apply_snapshot,
}
use distributed_caching.Config.{GatewayConfig}
use distributed_caching.Config.Validation.{check_config_iff, IsValid}
use distributed_caching.ConfigHandler.{
  reset_status, reset_controller, apply_stored, store_checked, update_cache_config,
}
use distributed_caching.Fetch.{Env}
use distributed_caching.Floats.{FloatOrder}
use distributed_caching.Gateway.{Server}
use distributed_caching.Lock.Holder.{LockWorks}
use distributed_caching.Outside.{Io, Reply, ok, err, Codec, RoundTrips}
use distributed_caching.Shared.{Control, synchronize_from_redis}
use distributed_caching.Shared.Fresh.{SnapshotWorks}
use distributed_caching.Shared.Reset.{reset, reset_snapshot}
use distributed_caching.Shared.Restores.{Remaining, Restores, reset-Restores}
use distributed_caching.Time.{Duration}

module _ {W Float : Type 0} (env : Env W Float) (config_codec : Codec (GatewayConfig Float))
    (parse_int : String → Option ℤ) (snapshot_codec : Codec (AdaptiveTtlSnapshot Float))
    (signals : Io W (Reply (BackendLoadSignals Float))) (wait : Duration → Io W Bool) where
  open env use {floats, clock, redis, codec}

  -- Any controller that reads the shared state gets the state that this gateway's controller has,
  -- which is the initial one.
  abbrev pub IsShared : Bool → Server W Float → Type 0
  IsShared enabled t =
      (b : AdaptiveTtlController Float)
      → (t.controller
          ≡ apply_snapshot ⦃o = floats⦄ (reset_snapshot env snapshot_codec signals wait enabled) b)
        × ((synchronize_from_redis env snapshot_codec signals
              (record { controller = b; world = t.world })).0
            ≡ ok tt)
        × ((synchronize_from_redis env snapshot_codec signals
              (record { controller = b; world = t.world })).1.controller
            ≡ t.controller)

  -- The status is 500, or it is 200 and the controller was reset.
  abbrev IsAnswered : Bool → Option ℕ × Server W Float → Type 0
  IsAnswered enabled (answer, t) = (answer ≡ some 500) ⊎ ((answer ≡ some 200) × IsShared enabled t)

  module _ (law : FloatOrder floats) (value : W → String → Option String)
      (works : SnapshotWorks env snapshot_codec signals wait value) (lock : LockWorks env value)
      (ends : Remaining env snapshot_codec signals wait) (rounds : ℕ)
      (bounded : (w : W) → ends.left w < rounds) (config : GatewayConfig Float)
      (trip : RoundTrips snapshot_codec
        (reset_snapshot env snapshot_codec signals wait config.adaptive_ttl_enabled)) where
    reset_controller-IsAnswered :
        (r : Reply (Unit {0})) (s : Server W Float)
        → IsAnswered config.adaptive_ttl_enabled (
            reset_controller env config_codec parse_int snapshot_codec signals wait rounds config r
              s)
    unfolding reset_controller
    reset_controller-IsAnswered (err e) s = inl refl
    reset_controller-IsAnswered (ok _) s =
        let before : Control W Float = record { controller = s.controller; world = s.world } in
        let (r, answered, done) =
          reset-Restores env snapshot_codec signals wait value works lock
            config.adaptive_ttl_enabled trip law ends rounds before (bounded s.world) in
        by_result r answered done
      where
        by_result :
            (r : Reply (Unit {0}))
            → (reset env snapshot_codec signals wait rounds config.adaptive_ttl_enabled
                (record { controller = s.controller; world = s.world })).0
              ≡ some r
            → Restores env snapshot_codec signals wait value works lock config.adaptive_ttl_enabled
                trip
                (record { controller = s.controller; world = s.world })
                r
                (reset env snapshot_codec signals wait rounds config.adaptive_ttl_enabled
                  (record { controller = s.controller; world = s.world })).1
            → IsAnswered config.adaptive_ttl_enabled (
                reset_controller env config_codec parse_int snapshot_codec signals wait rounds
                  config
                  (ok tt)
                  s)
        by_result (err e) answered done =
            inl (ap (reset_status env config_codec parse_int snapshot_codec signals wait) answered)
        by_result (ok _) answered done = inr (
          ap (reset_status env config_codec parse_int snapshot_codec signals wait) answered,
          done,
        )

    apply_stored-IsAnswered :
        (r : Reply ℤ) (s : Server W Float)
        → IsAnswered config.adaptive_ttl_enabled
            (apply_stored env config_codec parse_int snapshot_codec signals wait rounds config r s)
    unfolding apply_stored
    apply_stored-IsAnswered (err e) s = inl refl
    apply_stored-IsAnswered (ok version) s = reset_controller-IsAnswered _ _

    -- If floats obey their order laws, GET and SET work on the texts of Redis, the locks work, the
    -- codec round-trips the initial snapshot, and the waiting context allows fewer polls of the
    -- controller lock than the loop of Reset has rounds, then updateCacheConfig answers a valid
    -- configuration with status 500, or with status 200; after 200 the controller has the initial
    -- state, and any controller that synchronizes with Redis gets that state.
    pub update_cache_config-answers :
        (s : Server W Float)
        → IsValid ⦃o = floats⦄ config
        → ((update_cache_config env config_codec parse_int snapshot_codec signals wait rounds
              (some config)
              s).0
            ≡ some 500)
          ⊎ (((update_cache_config env config_codec parse_int snapshot_codec signals wait rounds
                  (some config)
                  s).0
                ≡ some 200)
              × IsShared config.adaptive_ttl_enabled
                  (update_cache_config env config_codec parse_int snapshot_codec signals wait rounds
                    (some config)
                    s).1)
    unfolding update_cache_config store_checked
    update_cache_config-answers s valid =
        rw ((check_config_iff ⦃o = floats⦄ config).1 valid, update_cache_config, store_checked)
          (apply_stored-IsAnswered _ _)
