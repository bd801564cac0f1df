-- ===== src/Tests/Controller.antt =====
-- The adaptive controller at concrete readings.
use distributed_caching.Base.{ℕ, ◌≡◌, refl, List, [], ◌∷◌, arith}
use distributed_caching.Base.Int.{ℤ, pos, ◌≤ℤ◌, ◌<ℤ◌, ◌*ℤ◌, wrap64}
use distributed_caching.Time.{of_units}
use distributed_caching.Adaptive.{
  BackendLoadSignals, classify_backend_load, process_signals, effective_cache_ttls, snapshot,
  clamp_adaptive_ttl_factor,
}
use distributed_caching.Adaptive.Effective.{
  effective_cache_ttls_ordered, effective_cache_ttls_overflow,
}
use distributed_caching.Adaptive.Factor.{IsBetween, process_signals-InLimits}
use distributed_caching.Adaptive.Readings.{
  after_readings, after_readings-factor, classes, moved, clamp,
}
use distributed_caching.Config.Validation.{IsValid}
use distributed_caching.Floats.{Floats}
use distributed_caching.Tests.Cases.{usual_config, signals_at, controller_at}
use distributed_caching.Tests.Fixed.{thousandths, thousandths_order}

instance abbrev fixed_point : Floats ℕ
fixed_point = thousandths

-- A factor outside the limits, and a congested reading.
process_signals-InLimits_example :
    IsBetween thousandths_order 750 4000
      (process_signals usual_config (signals_at 600_000 3) (controller_at 9000)).current_factor
process_signals-InLimits_example =
    process_signals-InLimits thousandths_order usual_config refl (signals_at 600_000 3)
      (controller_at 9000) refl

-- Two congested readings on both signals, the second of which raises the factor by 0.25.
abbrev two_congested : List (BackendLoadSignals ℕ)
two_congested = signals_at 600_000 14 ∷ signals_at 700_000 15 ∷ []

after_readings-factor_example :
    (after_readings usual_config two_congested (controller_at 1000)).current_factor
    ≡ moved usual_config
        (classify_backend_load usual_config (signals_at 600_000 14))
        (classes usual_config (signals_at 700_000 15 ∷ []))
        (clamp usual_config
          (after_readings usual_config
            (signals_at 700_000 15 ∷ [])
            (controller_at 1000)).current_factor)
after_readings-factor_example =
    after_readings-factor usual_config (signals_at 600_000 14) (signals_at 700_000 15 ∷ [])
      (controller_at 1000) (record { congested_count = refl; stable_count = refl })

effective_cache_ttls_overflow_example :
    (t : ℤ) × (t <ℤ pos 0)
    × ((effective_cache_ttls
          (record usual_config { l2_ttl_seconds = pos 9_300_000_000 })
          (controller_at 1000)).1
        ≡ thousandths.to_int (
            thousandths.mul
              (thousandths.of_int t)
              (effective_cache_ttls
                (record usual_config { l2_ttl_seconds = pos 9_300_000_000 })
                (controller_at 1000)).2))
effective_cache_ttls_overflow_example =
    effective_cache_ttls_overflow (record usual_config { l2_ttl_seconds = pos 9_300_000_000 })
      (controller_at 1000) 9_300_000_000 refl (omega arith) (omega arith)

usual_config-IsValid : IsValid usual_config
usual_config-IsValid = ground arith

effective_cache_ttls_ordered_example :
    (effective_cache_ttls usual_config (controller_at 1000)).0
    ≤ℤ (effective_cache_ttls usual_config (controller_at 1000)).1
unfolding effective_cache_ttls snapshot clamp_adaptive_ttl_factor of_units ◌*ℤ◌ wrap64
effective_cache_ttls_ordered_example =
    effective_cache_ttls_ordered usual_config (controller_at 1000) thousandths_order
      usual_config-IsValid (omega arith) refl refl
