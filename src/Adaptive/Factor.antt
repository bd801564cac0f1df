-- ===== src/Adaptive/Factor.antt =====
-- The factor of gateway/adaptive_ttl_controller.go stays between the configured limits.
use distributed_caching.Base.{◌≡◌, Bool, true, arith, Bool-cases, inl, inr}
use distributed_caching.Config.{GatewayConfig}
use distributed_caching.Floats.{Floats, FloatOrder}
use distributed_caching.Adaptive.{
  AdaptiveTtlState, disabled, stable, warning, congested, other, BackendLoadSignals,
  AdaptiveTtlController, clamp_adaptive_ttl_factor, count_reading, process_signals,
  classify_backend_load, adaptive_ttl_increase_step, adaptive_ttl_strong_increase_step,
  adaptive_ttl_decrease_step, snapshot, effective_cache_ttls,
}

module _ {Float : Type 0} ⦃o : Floats Float⦄ (law : FloatOrder o) where
  -- The factor lies between two limits.
  pub record IsBetween (lo hi x : Float) : Type 0 where
    pub above : o.le lo x ≡ true
    pub below : o.le x hi ≡ true

  le_refl : (x : Float) → o.is_number x ≡ true → o.le x x ≡ true
  le_refl x n = elim (Bool-cases (o.lt x x)) [
    | inl lt ↦ law.le_of_lt x x lt
    | inr not_lt ↦ law.le_of_not_lt x x n n not_lt
  ]

  pub clamp-IsBetween :
      (x lo hi : Float)
      → o.is_number x ≡ true
      → o.le lo hi ≡ true
      → IsBetween lo hi (clamp_adaptive_ttl_factor x lo hi)
  unfolding clamp_adaptive_ttl_factor
  clamp-IsBetween x lo hi n h =
      let (nlo, nhi) = law.le_is_number lo hi h in
      record {
        above = ground (arith, law.le_of_not_lt x lo, le_refl lo);
        below = ground (arith, law.le_of_not_lt hi x, le_refl hi);
      }

  module _ (config : GatewayConfig Float)
      (limits : o.le config.adaptive_ttl_min_factor config.adaptive_ttl_max_factor ≡ true) where
    abbrev InLimits : Float → Type 0
    InLimits = IsBetween config.adaptive_ttl_min_factor config.adaptive_ttl_max_factor

    count_reading-InLimits :
        (reading : AdaptiveTtlState × Bool × Bool) (c : AdaptiveTtlController Float)
        → InLimits c.current_factor
        → InLimits (count_reading config reading c).current_factor
    unfolding count_reading
    count_reading-InLimits (congested, latency, concurrency) c h =
        let n = (law.le_is_number _ _ h.below).0 in
        let weak = law.add_is_number c.current_factor 15 2 n in
        let strong = law.add_is_number c.current_factor 25 2 n in
        ground (
          arith,
          clamp-IsBetween (o.add c.current_factor adaptive_ttl_increase_step) _ _ weak limits,
          clamp-IsBetween (o.add c.current_factor adaptive_ttl_strong_increase_step) _ _ strong
              limits,
        )
    count_reading-InLimits (stable, _, _) c h =
        let n = (law.le_is_number _ _ h.below).0 in
        ground (
          arith,
          clamp-IsBetween (o.sub c.current_factor adaptive_ttl_decrease_step) _ _
              (law.sub_is_number c.current_factor 2 1 n) limits,
        )
    count_reading-InLimits (warning, _, _) c h = h
    count_reading-InLimits (disabled, _, _) c h = h
    count_reading-InLimits (other _, _, _) c h = h

    -- If floats obey their order laws, the configured minimum is at most the maximum, and the
    -- factor is a number, then a reading of the load leaves the factor between the two.
    pub process_signals-InLimits :
        (signals : BackendLoadSignals Float) (c : AdaptiveTtlController Float)
        → o.is_number c.current_factor ≡ true
        → InLimits (process_signals config signals c).current_factor
    unfolding process_signals
    process_signals-InLimits signals c n =
        count_reading-InLimits (classify_backend_load config signals) _
          (clamp-IsBetween c.current_factor _ _ n limits)

    -- If floats obey their order laws, the configured minimum is at most the maximum, the factor
    -- is a number and the adaptive TTL is on, then the factor that scales the times to live lies
    -- between the two.
    pub effective_cache_ttls-InLimits :
        (c : AdaptiveTtlController Float)
        → o.is_number c.current_factor ≡ true
        → config.adaptive_ttl_enabled ≡ true
        → InLimits (effective_cache_ttls config c).2
    unfolding effective_cache_ttls snapshot
    effective_cache_ttls-InLimits c n enabled =
        rw enabled (clamp-IsBetween c.current_factor _ _ n limits)
