-- ===== src/ConfigHandler/Outcomes.antt =====
-- What the endpoint of gateway/cache_config_handler.go does on each of its ways out.
use distributed_caching.Base.{
  ℕ, ◌≡◌, ◌≢◌, ◌⊎◌, inl, inr, refl, Bool, Option, none, some, String, Option-cases, arith, lookup,
}
use distributed_caching.Base.Int.{ℤ}
use distributed_caching.Adaptive.{AdaptiveTtlSnapshot, BackendLoadSignals}
use distributed_caching.Config.{GatewayConfig}
use distributed_caching.Config.Validation.{check_config, check_config_iff, IsValid}
use distributed_caching.ConfigHandler.{
  install, reset_status, reset_controller, apply_stored, store_checked, update_cache_config,
}
use distributed_caching.ConfigStore.{update_config}
use distributed_caching.Fetch.{Env}
use distributed_caching.Gateway.{Server}
use distributed_caching.L1.{get_l1, clear_l1}
use distributed_caching.L2.{clear_l2}
use distributed_caching.Outside.{Io, Reply, ok, err, Codec}
use distributed_caching.Time.{Time, Duration}

module _ {W Float : Type 0} (env : Env W Float) (config_codec : Codec (GatewayConfig Float))
    (parse_int : String → Option ℤ) (snapshot_codec : Codec (AdaptiveTtlSnapshot Float))
    (signals : Io W (Reply (BackendLoadSignals Float))) (wait : Duration → Io W Bool) where
  open env use {floats, clock, redis, codec}

  -- The configuration is in use, with its version, and nothing is left in the first level.
  pub record Installed (config : GatewayConfig Float) (version : ℤ) (t : Server W Float)
      : Type 0 where
    pub config_is : t.gateway_config ≡ config
    pub version_is : t.config_version ≡ version
    pub misses : (key : String) (now : Time) → (get_l1 now key t.l1).0 ≡ none

  reset_controller-Installed :
      (rounds : ℕ) (config c : GatewayConfig Float) (version : ℤ) (r : Reply (Unit {0}))
      (s : Server W Float)
      → Installed c version s
      → Installed c version
          (reset_controller env config_codec parse_int snapshot_codec signals wait rounds config r
            s).1
  unfolding reset_controller
  reset_controller-Installed rounds config c version (err e) s h = h
  reset_controller-Installed rounds config c version (ok _) s h = record {
    config_is = h.config_is;
    version_is = h.version_is;
    misses = h.misses;
  }

  install-Installed :
      (config : GatewayConfig Float) (version : ℤ) (s : Server W Float)
      → Installed config version
          (install env config_codec parse_int snapshot_codec signals wait config version s).1
  unfolding install get_l1 clear_l1 lookup
  install-Installed config version s = record {
    config_is = refl;
    version_is = refl;
    misses = λ key now. refl;
  }

  apply_stored-Installed :
      (rounds : ℕ) (config : GatewayConfig Float) (version : ℤ) (s : Server W Float)
      → Installed config version
          (apply_stored env config_codec parse_int snapshot_codec signals wait rounds config
            (ok version)
            s).1
  unfolding apply_stored
  apply_stored-Installed rounds config version s =
      let start = install-Installed config version s in
      let t = (install env config_codec parse_int snapshot_codec signals wait config version s).1 in
      let (cleared, w) = clear_l2 floats clock redis codec t.world in
      reset_controller-Installed rounds config config version cleared (record t { world = w })
        (record {
          config_is = start.config_is;
          version_is = start.version_is;
          misses = start.misses;
        })

  -- The status once the configuration has passed the checks.
  not_refused :
      (rounds : ℕ) (config : GatewayConfig Float) (r : Reply ℤ) (s : Server W Float)
      → (apply_stored env config_codec parse_int snapshot_codec signals wait rounds config r s).0
        ≢ some 400
  unfolding apply_stored reset_controller
  not_refused rounds config (err e) s = λ h. ground (arith, h)
  not_refused rounds config (ok version) s = after_clear _ _
    where
      by_result :
          (r : Option (Reply (Unit {0})))
          → reset_status env config_codec parse_int snapshot_codec signals wait r ≢ some 400
      by_result none = λ h. cc h
      by_result (some (err e)) = λ h. ground (arith, h)
      by_result (some (ok _)) = λ h. ground (arith, h)

      after_clear :
          (r : Reply (Unit {0})) (t : Server W Float)
          → (reset_controller env config_codec parse_int snapshot_codec signals wait rounds config r
              t).0
            ≢ some 400
      after_clear (err e) t = λ h. ground (arith, h)
      after_clear (ok _) t = by_result _

  -- A body that does not decode, or that is not a valid configuration, is answered 400 by
  -- updateCacheConfig, which then changes neither the gateway nor the world; a valid configuration
  -- is not answered 400.
  pub update_cache_config-refused :
      (rounds : ℕ) (body : Option (GatewayConfig Float)) (s : Server W Float)
      → ((update_cache_config env config_codec parse_int snapshot_codec signals wait rounds body s
            ≡ (some 400, s))
          × ((c : GatewayConfig Float) → body ≡ some c → ¬ IsValid ⦃o = floats⦄ c))
        ⊎ ((c : GatewayConfig Float) × (body ≡ some c)
            × IsValid ⦃o = floats⦄ c
            × ((update_cache_config env config_codec parse_int snapshot_codec signals wait rounds
                  body s).0
                ≢ some 400))
  unfolding update_cache_config store_checked
  update_cache_config-refused rounds none s = inl (refl, λ c e. cc e)
  update_cache_config-refused rounds (some c) s =
      elim (Option-cases (check_config ⦃o = floats⦄ c)) [
        | inr (m, refused) ↦
            rw (refused, update_cache_config, store_checked)
              (inl (refl, λ d e v. cc (e, refused, (check_config_iff ⦃o = floats⦄ d).1 v)))
        | inl passed ↦
            rw (passed, update_cache_config, store_checked)
              (inr (c, refl, (check_config_iff ⦃o = floats⦄ c).0 passed, not_refused rounds c _ _))
      ]

  -- If a valid configuration was stored under some version, then updateCacheConfig leaves the
  -- gateway with that configuration, that version and a first level in which every read misses,
  -- also where it answers 500 because the second level could not be cleared or the controller not
  -- reset.
  pub update_cache_config-installs :
      (rounds : ℕ) (config : GatewayConfig Float) (version : ℤ) (s : Server W Float)
      → IsValid ⦃o = floats⦄ config
      → (update_config ⦃f = floats⦄ redis config_codec parse_int config s.world).0 ≡ ok version
      → Installed config version
          (update_cache_config env config_codec parse_int snapshot_codec signals wait rounds
            (some config)
            s).1
  unfolding update_cache_config store_checked
  update_cache_config-installs rounds config version s valid stored =
      rw ((check_config_iff ⦃o = floats⦄ config).1 valid, update_cache_config, store_checked)
        (rw (stored, store_checked) (apply_stored-Installed rounds config version _))
