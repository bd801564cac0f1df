-- ===== src/Adaptive/Effective.antt =====
-- The times to live that `effectiveCacheTTLs` of gateway/adaptive_ttl_controller.go computes.
use distributed_caching.Base.{ℕ, ◌≤◌, ◌<◌, ◌*◌, ◌^◌, ◌-◌, ◌≡◌, refl, true, arith}
use distributed_caching.Base.Int.{ℤ, pos, negsuc, ◌≤ℤ◌, ◌<ℤ◌, ◌*ℤ◌, wrap64}
use distributed_caching.Config.{GatewayConfig}
use distributed_caching.Config.Validation.{IsValid}
use distributed_caching.Floats.{Floats, FloatOrder}
use distributed_caching.Adaptive.{AdaptiveTtlController, effective_cache_ttls}
use distributed_caching.Time.{of_units, second}

-- The largest number of seconds that is a duration.
abbrev pub max_seconds : ℕ
max_seconds = 9_223_372_036

pub of_units-seconds : (n : ℕ) → n ≤ max_seconds → of_units (pos n) second ≡ pos (n * second)
unfolding of_units ◌*ℤ◌ wrap64
of_units-seconds n h = ground arith

-- A time to live above the largest duration wraps around to a negative one, as far as twice that.
pub of_units_overflow :
    (n : ℕ) → max_seconds < n → n ≤ 2 * max_seconds → of_units (pos n) second <ℤ pos 0
unfolding of_units ◌*ℤ◌ wrap64
of_units_overflow n h k = ground arith

ordered_bases :
    (a b : ℤ)
    → pos 0 <ℤ a
    → a ≤ℤ b
    → b ≤ℤ pos max_seconds
    → (pos 0 <ℤ of_units a second) × (of_units a second ≤ℤ of_units b second)
ordered_bases (pos a) (pos b) p q r =
    rw (of_units-seconds a (omega arith), of_units-seconds b (omega arith))
      (omega arith, omega arith)
ordered_bases (pos a) (negsuc b) p q r = absurd (omega arith)
ordered_bases (negsuc a) b p q r = absurd (omega arith)

module _ {Float : Type 0} ⦃o : Floats Float⦄ (config : GatewayConfig Float)
    (c : AdaptiveTtlController Float) where
  -- For a second time to live of more than 9223372036 and at most twice as many seconds, the time
  -- to live of the second level is a negative duration, scaled by the factor: the product in
  -- seconds overflows.
  pub effective_cache_ttls_overflow :
      (n : ℕ)
      → config.l2_ttl_seconds ≡ pos n
      → max_seconds < n
      → n ≤ 2 * max_seconds
      → (t : ℤ) × (t <ℤ pos 0)
        × ((effective_cache_ttls config c).1
            ≡ o.to_int (o.mul (o.of_int t) (effective_cache_ttls config c).2))
  unfolding effective_cache_ttls
  effective_cache_ttls_overflow n e h k =
      (of_units (pos n) second, of_units_overflow n h k, rw e refl)

  bases :
      IsValid config
      → config.l2_ttl_seconds ≤ℤ pos max_seconds
      → (pos 0 <ℤ of_units config.l1_ttl_seconds second)
        × (of_units config.l1_ttl_seconds second ≤ℤ of_units config.l2_ttl_seconds second)
  bases v fits = ordered_bases config.l1_ttl_seconds config.l2_ttl_seconds v.l1_ttl v.ttl fits

  -- If floats obey their order laws, the configuration is valid with at most 9223372036 seconds
  -- for the second level, the factor is positive, and the scaled second time to live is below 2 ^
  -- 63 - 1, then the time to live of the first level is at most that of the second.
  pub effective_cache_ttls_ordered :
      FloatOrder o
      → IsValid config
      → config.l2_ttl_seconds ≤ℤ pos max_seconds
      → o.lt (o.decimal 0 0) (effective_cache_ttls config c).2 ≡ true
      → o.lt
          (o.mul
            (o.of_int (of_units config.l2_ttl_seconds second))
            (effective_cache_ttls config c).2)
          (o.of_int (pos (2 ^ 63 - 1)))
        ≡ true
      → (effective_cache_ttls config c).0 ≤ℤ (effective_cache_ttls config c).1
  unfolding effective_cache_ttls
  effective_cache_ttls_ordered law v fits positive in_range =
      let f = (effective_cache_ttls config c).2 in
      let base1 = of_units config.l1_ttl_seconds second in
      let base2 = of_units config.l2_ttl_seconds second in
      let (positive1, ordered) = bases v fits in
      let p = law.of_int_pos base1 positive1 in
      law.to_int_mono _ _ (law.mul_nonneg (o.of_int base1) f p positive)
        (law.mul_mono (o.of_int base1) (o.of_int base2) f p (law.of_int_mono base1 base2 ordered)
          positive)
        in_range
