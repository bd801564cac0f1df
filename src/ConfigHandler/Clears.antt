-- ===== src/ConfigHandler/Clears.antt =====
-- A configuration that the endpoint of gateway/cache_config_handler.go stores leaves no response in
-- the caches, in a Redis that works.
use distributed_caching.Base.{
  ℕ, ◌≡◌, refl, Bool, true, false, String, Option, none, some, ◌==◌, string_keys, inl, inr, arith,
  Option-cases, eq_iff, ap, lookup,
}
use distributed_caching.Base.Int.{ℤ}
use distributed_caching.Adaptive.{AdaptiveTtlSnapshot, BackendLoadSignals}
use distributed_caching.Config.{GatewayConfig}
use distributed_caching.Config.Validation.{check_config}
use distributed_caching.ConfigHandler.{
  install, reset_controller, apply_stored, store_checked, update_cache_config,
}
use distributed_caching.ConfigStore.{update_config, gateway_config_key, gateway_config_version_key}
use distributed_caching.Fetch.{Env}
use distributed_caching.Gateway.{Server}
use distributed_caching.L1.{get_l1, clear_l1}
use distributed_caching.L2.{l2_lru_key, get_l2, clear_l2}
use distributed_caching.L2.Clears.{
  L2Reach, elapses, next, get_l2-absent, clear_l2-absent, L2Reach-Tracks,
}
use distributed_caching.L2.Working.{View, Works}
use distributed_caching.Lock.Holder.{LockWorks}
use distributed_caching.Outside.{Io, Reply, Reply-cases, ok, err, ◌>>=◌, Codec}
use distributed_caching.Shared.{
  adaptive_ttl_snapshot_redis_key, adaptive_ttl_controller_lock_redis_key,
}
use distributed_caching.Shared.Frame.{reset-Keeping}
use distributed_caching.Shared.Fresh.{SnapshotWorks}
use distributed_caching.Time.{Time, Duration}

-- The keys of the cache, which are the addresses of requests, are none of the gateways' own keys.
pub record Apart (is_key : String → Bool) : Type 0 where
  pub order : is_key l2_lru_key ≡ false
  pub snapshot : is_key adaptive_ttl_snapshot_redis_key ≡ false
  pub lock : is_key adaptive_ttl_controller_lock_redis_key ≡ false

module _ {W Float : Type 0} (env : Env W Float) (config_codec : Codec (GatewayConfig Float))
    (parse_int : String → Option ℤ) (snapshot_codec : Codec (AdaptiveTtlSnapshot Float))
    (signals : Io W (Reply (BackendLoadSignals Float))) (wait : Duration → Io W Bool)
    (view : View W Float) (is_key : String → Bool) where
  open env use {floats, clock, redis, codec}
  open view use {value, members}

  -- The transaction that stores a configuration writes no key of the cache, and not the order.
  pub record StoreApart : Type 0 where
    pub order_same :
        (t : String) (w : W)
        → members
            (redis.set_and_incr gateway_config_key t gateway_config_version_key w).1
            l2_lru_key
          ≡ members w l2_lru_key
    pub value_same :
        (t : String) (w : W) (j : String)
        → is_key j ≡ true
        → value (redis.set_and_incr gateway_config_key t gateway_config_version_key w).1 j
          ≡ value w j

  -- The first level has nothing, and the second level has no value of a request.
  pub record Misses (t : Server W Float) : Type 0 where
    pub first : (key : String) (now : Time) → (get_l1 now key t.l1).0 ≡ none
    pub second :
        (key : String) → is_key key ≡ true → (get_l2 floats clock redis codec key t.world).0 ≡ none

  module _ (works : Works clock redis view) (apart : Apart is_key) (kept : StoreApart)
      (lock : LockWorks env value) (saves : SnapshotWorks env snapshot_codec signals wait value)
      (waits : (d : Duration) (w : W) (j : String) → value (wait d w).1 j ≡ value w j) where
    -- Nothing of the cache is in Redis.
    abbrev Empty : W → Type 0
    Empty w = (j : String) → is_key j ≡ true → value w j ≡ none

    is_key-ne : (k j : String) → is_key k ≡ false → is_key j ≡ true → (k == j) ≡ false
    is_key-ne k j own cached = ground (arith, eq_iff k j)

    reset_controller-Empty :
        (rounds : ℕ) (config : GatewayConfig Float) (r : Reply (Unit {0})) (s : Server W Float)
        → Empty s.world
        → Empty
            (reset_controller env config_codec parse_int snapshot_codec signals wait rounds config r
              s).1.world
    unfolding reset_controller
    reset_controller-Empty rounds config (err e) s h = h
    reset_controller-Empty rounds config (ok _) s h = λ j cached.
        reset-Keeping env snapshot_codec signals wait value saves lock waits j
          (is_key-ne _ j apart.snapshot cached) (is_key-ne _ j apart.lock cached) none rounds
          config.adaptive_ttl_enabled (record { controller = s.controller; world = s.world })
          (h j cached)

    reset_controller-l1 :
        (rounds : ℕ) (config : GatewayConfig Float) (r : Reply (Unit {0})) (s : Server W Float)
        → (reset_controller env config_codec parse_int snapshot_codec signals wait rounds config r
            s).1.l1
          ≡ s.l1
    unfolding reset_controller
    reset_controller-l1 rounds config (err e) s = refl
    reset_controller-l1 rounds config (ok _) s = refl

    apply_stored-Misses :
        (rounds : ℕ) (config : GatewayConfig Float) (version : ℤ) (s : Server W Float)
        → L2Reach floats clock redis codec view is_key s.world
        → Misses
            (apply_stored env config_codec parse_int snapshot_codec signals wait rounds config
              (ok version)
              s).1
    unfolding apply_stored install get_l1 clear_l1 lookup
    apply_stored-Misses rounds config version s r =
        let t =
          (install env config_codec parse_int snapshot_codec signals wait config version s).1 in
        let (cleared, w) = clear_l2 floats clock redis codec t.world in
        let u = record t { world = w } in
        let empty : Empty w = λ j cached.
          clear_l2-absent floats clock redis codec view is_key works apart.order s.world j cached
            (L2Reach-Tracks floats clock redis codec view is_key works apart.order r) in
        record {
          first = λ key now.
              ap (λ c. (get_l1 now key c).0) (reset_controller-l1 rounds config cleared u);
          second = λ key cached.
              get_l2-absent floats clock redis codec view is_key works apart.order key _
                (reset_controller-Empty rounds config cleared u empty key cached);
        }

    stored-Misses :
        (rounds : ℕ) (config : GatewayConfig Float) (answer : Reply ℤ) (s : Server W Float)
        → L2Reach floats clock redis codec view is_key s.world
        → (apply_stored env config_codec parse_int snapshot_codec signals wait rounds config answer
            s).0
          ≡ some 200
        → Misses
            (apply_stored env config_codec parse_int snapshot_codec signals wait rounds config
              answer s).1
    unfolding apply_stored
    stored-Misses rounds config (err e) s r done = absurd (ground (arith, done))
    stored-Misses rounds config (ok version) s r done =
        apply_stored-Misses rounds config version s r

    -- Storing a configuration leaves the second level to the other calls.
    update_config-L2Reach :
        (config : GatewayConfig Float) (w : W)
        → L2Reach floats clock redis codec view is_key w
        → L2Reach floats clock redis codec view is_key
            (update_config ⦃f = floats⦄ redis config_codec parse_int config w).1
    unfolding update_config
    update_config-L2Reach config w r = elim (Reply-cases (config_codec.encode config)) [
      | inr (e, failed) ↦ rw (failed, update_config) r
      | inl (t, done) ↦
          let answer = redis.set_and_incr gateway_config_key t gateway_config_version_key w in
          let later : L2Reach floats clock redis codec view is_key answer.1 = next r (
            elapses answer.1 (kept.order_same t w)
              (λ j cached. inl (kept.value_same t w j cached))) in
          elim (Reply-cases answer.0) [
            | inr (_, e) ↦ rw (done, update_config) (rw (e, ◌>>=◌) later)
            | inl (_, e) ↦ rw (done, update_config) (rw (e, ◌>>=◌) later)
          ]
    ]

    -- In a Redis that works, where the keys of requests are none of the gateways' own keys,
    -- storing a configuration writes no key of a request and not the order, and waiting writes
    -- nothing: from a world that any sequence of calls on the second level leads to, a
    -- configuration that updateCacheConfig answers with status 200 leaves the gateway with a first
    -- level in which every read misses, and leaves a second level in which every read of a key of
    -- a request misses.
    pub update_cache_config-Misses :
        (rounds : ℕ) (config : GatewayConfig Float) (s : Server W Float)
        → L2Reach floats clock redis codec view is_key s.world
        → (update_cache_config env config_codec parse_int snapshot_codec signals wait rounds
            (some config)
            s).0
          ≡ some 200
        → Misses
            (update_cache_config env config_codec parse_int snapshot_codec signals wait rounds
              (some config)
              s).1
    unfolding update_cache_config store_checked
    update_cache_config-Misses rounds config s r =
        elim (Option-cases (check_config ⦃o = floats⦄ config)) [
          | inr (message, refused) ↦
              rw (refused, update_cache_config) (λ done. absurd (ground (arith, done)))
          | inl valid ↦
              rw (valid, update_cache_config)
                (stored-Misses rounds config _ _ (update_config-L2Reach config s.world r))
        ]
