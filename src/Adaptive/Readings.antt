-- ===== src/Adaptive/Readings.antt =====
-- The hysteresis of gateway/adaptive_ttl_controller.go: how a history of readings moves the factor.
use distributed_caching.Base.{
  ℕ, suc, ◌%◌, ◌≤◌, ◌≡◌, refl, Bool, true, false, List, [], ◌∷◌, arith, if◌then◌else◌, ◌⊎◌, ◌&&◌,
  ◌==◌, nat_keys, ◌∙◌,
}
use distributed_caching.Base.Int.{pos, wrap64_of_IsInt64, ◌+ℤ◌}
use distributed_caching.Config.{GatewayConfig}
use distributed_caching.Floats.{Floats}
use distributed_caching.Adaptive.{
  AdaptiveTtlState, disabled, stable, warning, congested, other, BackendLoadSignals,
  AdaptiveTtlController, clamp_adaptive_ttl_factor, count_reading, process_signals,
  classify_backend_load, adaptive_ttl_increase_step, adaptive_ttl_strong_increase_step,
  adaptive_ttl_decrease_step, incr,
}

incr-pos : (n : ℕ) → n ≤ 2 → incr (pos n) ≡ pos (suc n)
unfolding incr ◌+ℤ◌
incr-pos n h =
    wrap64_of_IsInt64 (pos n +ℤ pos 1) (record { below = ground arith; above = ground arith })
    ∙ ground arith

abbrev pub is_congested : AdaptiveTtlState → Bool
is_congested congested = true
is_congested _ = false

abbrev pub is_stable : AdaptiveTtlState → Bool
is_stable stable = true
is_stable _ = false

-- How many readings, from the latest one on, pass a test.
abbrev pub streak : (AdaptiveTtlState → Bool) → List AdaptiveTtlState → ℕ
streak p [] = 0
streak p (x ∷ xs) = if p x then suc (streak p xs) else 0

module _ {Float : Type 0} ⦃o : Floats Float⦄ (config : GatewayConfig Float) where
  abbrev pub class_of : BackendLoadSignals Float → AdaptiveTtlState
  class_of signals = (classify_backend_load config signals).0

  abbrev pub classes : List (BackendLoadSignals Float) → List AdaptiveTtlState
  classes [] = []
  classes (x ∷ xs) = class_of x ∷ classes xs

  -- The controller after a history of readings, the latest first.
  unfoldable pub after_readings :
      List (BackendLoadSignals Float) → AdaptiveTtlController Float → AdaptiveTtlController Float
  after_readings [] c = c
  after_readings (x ∷ earlier) c = process_signals config x (after_readings earlier c)

  -- Both counters follow from the classes of the readings alone.
  pub record Counts (states : List AdaptiveTtlState) (c : AdaptiveTtlController Float)
      : Type 0 where
    pub congested_count : c.consecutive_congested_readings ≡ pos (streak is_congested states % 2)
    pub stable_count : c.consecutive_stable_readings ≡ pos (streak is_stable states % 3)

  count_reading-Counts :
      (r : AdaptiveTtlState × Bool × Bool) (states : List AdaptiveTtlState)
      (c : AdaptiveTtlController Float)
      → (r.0 ≡ congested) ⊎ (r.0 ≡ stable) ⊎ (r.0 ≡ warning)
      → Counts states c
      → Counts (r.0 ∷ states) (count_reading config r c)
  unfolding count_reading
  count_reading-Counts (congested, latency, concurrency) states c k h =
      ground (arith, h.congested_count, incr-pos (streak is_congested states % 2))
  count_reading-Counts (stable, _, _) states c k h =
      ground (arith, h.stable_count, incr-pos (streak is_stable states % 3))
  count_reading-Counts (warning, _, _) states c k h = ground arith
  count_reading-Counts (disabled, _, _) states c k h = absurd (ground arith)
  count_reading-Counts (other _, _, _) states c k h = absurd (ground arith)

  -- `classify_backend_load` answers one of the three states that are counted.
  classify_cases :
      (x : BackendLoadSignals Float)
      → (class_of x ≡ congested) ⊎ (class_of x ≡ stable) ⊎ (class_of x ≡ warning)
  unfolding classify_backend_load
  classify_cases x = ground arith

  -- From counters that are zero, after any history of readings the congested counter is the length
  -- of the latest congested streak modulo two, and the stable counter that of the latest stable
  -- streak modulo three.
  pub after_readings-Counts :
      (history : List (BackendLoadSignals Float)) (c : AdaptiveTtlController Float)
      → Counts [] c
      → Counts (classes history) (after_readings history c)
  unfolding after_readings process_signals
  after_readings-Counts [] c h = h
  after_readings-Counts (x ∷ earlier) c h =
      let ih = after_readings-Counts earlier c h in
      count_reading-Counts (classify_backend_load config x) (classes earlier) _ (classify_cases x)
        (record { congested_count = ih.congested_count; stable_count = ih.stable_count })

  abbrev pub clamp : Float → Float
  clamp x =
      clamp_adaptive_ttl_factor x config.adaptive_ttl_min_factor config.adaptive_ttl_max_factor

  -- Where a reading moves the factor: up at every second congested reading in a row, down at every
  -- third stable one.
  abbrev pub moved : AdaptiveTtlState × Bool × Bool → List AdaptiveTtlState → Float → Float
  moved (state, latency, concurrency) earlier f =
      let step =
        if latency && concurrency
        then adaptive_ttl_strong_increase_step
        else adaptive_ttl_increase_step in
      if is_congested state && (streak is_congested earlier % 2 == 1)
      then clamp (o.add f step)
      else if is_stable state && (streak is_stable earlier % 3 == 2)
      then clamp (o.sub f adaptive_ttl_decrease_step)
      else f

  count_reading-factor :
      (r : AdaptiveTtlState × Bool × Bool) (earlier : List AdaptiveTtlState)
      (c : AdaptiveTtlController Float)
      → Counts earlier c
      → (count_reading config r c).current_factor ≡ moved r earlier c.current_factor
  unfolding count_reading
  count_reading-factor (congested, latency, concurrency) earlier c h =
      ground (arith, h.congested_count, incr-pos (streak is_congested earlier % 2))
  count_reading-factor (stable, _, _) earlier c h =
      ground (arith, h.stable_count, incr-pos (streak is_stable earlier % 3))
  count_reading-factor (warning, _, _) earlier c h = refl
  count_reading-factor (disabled, _, _) earlier c h = refl
  count_reading-factor (other _, _, _) earlier c h = refl

  -- From counters that are zero, the factor after a history of readings is the clamped factor
  -- before the last one, raised if the last reading is congested and ends an even streak of such
  -- readings, lowered if it is stable and ends a streak whose length three divides, and else left
  -- as it is.
  pub after_readings-factor :
      (x : BackendLoadSignals Float) (earlier : List (BackendLoadSignals Float))
      (c : AdaptiveTtlController Float)
      → Counts [] c
      → (after_readings (x ∷ earlier) c).current_factor
        ≡ moved
            (classify_backend_load config x)
            (classes earlier)
            (clamp (after_readings earlier c).current_factor)
  unfolding after_readings process_signals
  after_readings-factor x earlier c h =
      let ih = after_readings-Counts earlier c h in
      count_reading-factor (classify_backend_load config x) (classes earlier) _
        (record { congested_count = ih.congested_count; stable_count = ih.stable_count })
