-- ===== src/Config/Defaults.antt =====
-- What `applyAdaptiveTTLDefaults` of gateway/cache_config.go does to the settings it reads.
use distributed_caching.Base.{◌≡◌, true, false, arith, Bool-cases, inl, inr}
use distributed_caching.Base.Int.{pos, ◌<ℤ◌}
use distributed_caching.Config.{GatewayConfig, apply_adaptive_ttl_defaults}
use distributed_caching.Config.Validation.{IsValid}
use distributed_caching.Floats.{Floats, FloatOrder}

-- The adaptive settings are all above zero.
pub record IsUsable {Float : Type 0} ⦃o : Floats Float⦄ (c : GatewayConfig Float) : Type 0 where
  pub min_factor : o.le c.adaptive_ttl_min_factor (o.decimal 0 0) ≡ false
  pub max_factor : o.le c.adaptive_ttl_max_factor (o.decimal 0 0) ≡ false
  pub latency : pos 0 <ℤ c.adaptive_ttl_latency_threshold_ms
  pub concurrency : pos 0 <ℤ c.adaptive_ttl_concurrency_threshold
  pub interval : pos 0 <ℤ c.adaptive_ttl_adjustment_interval_ms

module _ {Float : Type 0} ⦃o : Floats Float⦄ (law : FloatOrder o) (c : GatewayConfig Float) where
  not-le_of_lt : (x y : Float) → o.lt x y ≡ true → o.le y x ≡ false
  not-le_of_lt x y h = elim (Bool-cases (o.le y x)) [
    | inl le ↦ ground (arith, law.not_lt_of_le x y)
    | inr lt ↦ lt
  ]

  -- If floats obey their order laws, then applyAdaptiveTTLDefaults leaves all five adaptive
  -- settings above zero, whatever the configuration was.
  pub apply_adaptive_ttl_defaults-IsUsable : IsUsable (apply_adaptive_ttl_defaults c)
  unfolding apply_adaptive_ttl_defaults
  apply_adaptive_ttl_defaults-IsUsable =
      let low = not-le_of_lt _ _ (law.decimal_pos 75 2 (omega arith) (omega arith)) in
      let high = not-le_of_lt _ _ (law.decimal_pos 40 1 (omega arith) (omega arith)) in
      record {
        min_factor = ground arith;
        max_factor = ground arith;
        latency = ground arith;
        concurrency = ground arith;
        interval = ground arith;
      }

  -- A configuration whose adaptive settings are all above zero is left unchanged by
  -- applyAdaptiveTTLDefaults.
  pub apply_adaptive_ttl_defaults_of_IsUsable : IsUsable c → apply_adaptive_ttl_defaults c ≡ c
  unfolding apply_adaptive_ttl_defaults
  apply_adaptive_ttl_defaults_of_IsUsable u = ground arith

  pub IsValid-IsUsable : IsValid c → IsUsable c
  IsValid-IsUsable v = record {
    min_factor = v.min_above;
    max_factor = elim (Bool-cases (o.le c.adaptive_ttl_max_factor (o.decimal 0 0))) [
      | inr above ↦ above
      | inl below ↦ ground (
        arith,
        law.le_is_number c.adaptive_ttl_max_factor (o.decimal 0 0),
        law.decimal_is_number 1 0,
        law.le_of_not_lt c.adaptive_ttl_max_factor (o.decimal 1 0),
        law.le_trans (o.decimal 1 0) c.adaptive_ttl_max_factor (o.decimal 0 0),
        law.not_lt_of_le (o.decimal 0 0) (o.decimal 1 0),
        law.decimal_pos 1 0,
      )
    ];
    latency = v.latency;
    concurrency = v.concurrency;
    interval = v.interval;
  }
