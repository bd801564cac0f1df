-- ===== src/Adaptive.antt =====
-- gateway/adaptive_ttl_controller.go: the state of the adaptive TTL controller and what one reading
-- of the backend's load does to it, under the controller's lock.
pub mod Factor
pub mod Readings
pub mod Classes
pub mod Effective
use distributed_caching.Base.{ℕ, Bool, true, false, ◌&&◌, ◌||◌, not, String, if◌then◌else◌}
use distributed_caching.Base.Int.{ℤ, pos, leb_ℤ, ◌+ℤ◌, wrap64}
use distributed_caching.Config.{GatewayConfig}
use distributed_caching.Floats.{Floats}
use distributed_caching.Time.{Duration, of_units, second}

-- The four states that the code names; a snapshot read from Redis may hold any other text.
pub data AdaptiveTtlState : Type 0 where
  disabled stable warning congested : AdaptiveTtlState
  other : String → AdaptiveTtlState

pub record BackendLoadSignals (Float : Type 0) : Type 0 where
  pub p99_latency_ms : Float
  pub active_requests : ℤ
  pub max_concurrent_requests : ℤ
  pub sample_count : ℤ

pub record AdaptiveTtlSnapshot (Float : Type 0) : Type 0 where
  pub factor : Float
  pub state : AdaptiveTtlState
  pub consecutive_stable_readings : ℤ
  pub consecutive_congested_readings : ℤ
  pub last_backend_p99_latency_ms : Float

pub record AdaptiveTtlController (Float : Type 0) : Type 0 where
  pub current_factor : Float
  pub current_state : AdaptiveTtlState
  pub consecutive_stable_readings : ℤ
  pub consecutive_congested_readings : ℤ
  pub last_backend_p99_latency_ms : Float

abbrev pub adaptive_ttl_minimum_sample_count : ℤ
adaptive_ttl_minimum_sample_count = pos 20

abbrev pub adaptive_ttl_congested_readings_required : ℤ
adaptive_ttl_congested_readings_required = pos 2

abbrev pub adaptive_ttl_stable_readings_required : ℤ
adaptive_ttl_stable_readings_required = pos 3

-- `n++` on an int.
unfoldable pub incr : ℤ → ℤ
incr n = wrap64 (n +ℤ pos 1)

module _ {Float : Type 0} ⦃o : Floats Float⦄ where
  abbrev pub adaptive_ttl_initial_factor : Float
  adaptive_ttl_initial_factor = o.decimal 10 1

  abbrev pub adaptive_ttl_stable_threshold_ratio : Float
  adaptive_ttl_stable_threshold_ratio = o.decimal 9 1

  abbrev pub adaptive_ttl_increase_step : Float
  adaptive_ttl_increase_step = o.decimal 15 2

  abbrev pub adaptive_ttl_strong_increase_step : Float
  adaptive_ttl_strong_increase_step = o.decimal 25 2

  abbrev pub adaptive_ttl_decrease_step : Float
  adaptive_ttl_decrease_step = o.decimal 2 1

  -- The controller that `NewAdaptiveTTLController` makes.
  abbrev pub new_controller : AdaptiveTtlController Float
  new_controller = record {
    current_factor = adaptive_ttl_initial_factor;
    current_state = disabled;
    consecutive_stable_readings = pos 0;
    consecutive_congested_readings = pos 0;
    last_backend_p99_latency_ms = o.decimal 0 0;
  }

  unfoldable pub snapshot : AdaptiveTtlController Float → AdaptiveTtlSnapshot Float
  snapshot c = record {
    factor = c.current_factor;
    state = c.current_state;
    consecutive_stable_readings = c.consecutive_stable_readings;
    consecutive_congested_readings = c.consecutive_congested_readings;
    last_backend_p99_latency_ms = c.last_backend_p99_latency_ms;
  }

  unfoldable pub apply_snapshot :
      AdaptiveTtlSnapshot Float → AdaptiveTtlController Float → AdaptiveTtlController Float
  apply_snapshot s c = record {
    current_factor = s.factor;
    current_state = s.state;
    consecutive_stable_readings = s.consecutive_stable_readings;
    consecutive_congested_readings = s.consecutive_congested_readings;
    last_backend_p99_latency_ms = s.last_backend_p99_latency_ms;
  }

  unfoldable pub set_disabled : AdaptiveTtlController Float → AdaptiveTtlController Float
  set_disabled c = record {
    current_factor = adaptive_ttl_initial_factor;
    current_state = disabled;
    consecutive_stable_readings = pos 0;
    consecutive_congested_readings = pos 0;
    last_backend_p99_latency_ms = o.decimal 0 0;
  }

  unfoldable pub clamp_adaptive_ttl_factor : Float → Float → Float → Float
  clamp_adaptive_ttl_factor factor min_factor max_factor =
      if o.lt factor min_factor
      then min_factor
      else if o.lt max_factor factor
      then max_factor
      else factor

  -- `latencyCongested` and `concurrencyCongested`
  abbrev pub latency_congested : GatewayConfig Float → BackendLoadSignals Float → Bool
  latency_congested config signals =
      leb_ℤ adaptive_ttl_minimum_sample_count signals.sample_count
      && o.le (o.of_int config.adaptive_ttl_latency_threshold_ms) signals.p99_latency_ms

  abbrev pub concurrency_congested : GatewayConfig Float → BackendLoadSignals Float → Bool
  concurrency_congested config signals =
      leb_ℤ config.adaptive_ttl_concurrency_threshold signals.active_requests

  unfoldable pub classify_backend_load :
      GatewayConfig Float → BackendLoadSignals Float → AdaptiveTtlState × Bool × Bool
  classify_backend_load config signals =
      let enough_latency_samples = leb_ℤ adaptive_ttl_minimum_sample_count signals.sample_count in
      let latency = latency_congested config signals in
      let concurrency = concurrency_congested config signals in
      let stable_latency_threshold =
        o.mul (o.of_int config.adaptive_ttl_latency_threshold_ms)
          adaptive_ttl_stable_threshold_ratio in
      let stable_concurrency_threshold =
        o.mul (o.of_int config.adaptive_ttl_concurrency_threshold)
          adaptive_ttl_stable_threshold_ratio in
      let concurrency_stable =
        o.lt (o.of_int signals.active_requests) stable_concurrency_threshold in
      let latency_stable = o.lt signals.p99_latency_ms stable_latency_threshold in
      if latency || concurrency
      then (congested, latency, concurrency)
      else if not enough_latency_samples
      then (if concurrency_stable then (stable, false, false) else (warning, false, false))
      else if latency_stable && concurrency_stable
      then (stable, false, false)
      else (warning, false, false)

  -- The `switch` of `processSignals`, after the factor was clamped and the state set.
  unfoldable pub count_reading :
      GatewayConfig Float
      → AdaptiveTtlState × Bool × Bool
      → AdaptiveTtlController Float
      → AdaptiveTtlController Float
  count_reading config (congested, latency, concurrency) c =
      let readings = incr c.consecutive_congested_readings in
      let step =
        if latency && concurrency
        then adaptive_ttl_strong_increase_step
        else adaptive_ttl_increase_step in
      if leb_ℤ adaptive_ttl_congested_readings_required readings
      then record c {
        current_factor =
            clamp_adaptive_ttl_factor (o.add c.current_factor step) config.adaptive_ttl_min_factor
              config.adaptive_ttl_max_factor;
        consecutive_stable_readings = pos 0;
        consecutive_congested_readings = pos 0;
      }
      else record c {
        consecutive_stable_readings = pos 0;
        consecutive_congested_readings = readings;
      }
  count_reading config (stable, _, _) c =
      let readings = incr c.consecutive_stable_readings in
      if leb_ℤ adaptive_ttl_stable_readings_required readings
      then record c {
        current_factor =
            clamp_adaptive_ttl_factor (o.sub c.current_factor adaptive_ttl_decrease_step)
              config.adaptive_ttl_min_factor config.adaptive_ttl_max_factor;
        consecutive_stable_readings = pos 0;
        consecutive_congested_readings = pos 0;
      }
      else record c {
        consecutive_stable_readings = readings;
        consecutive_congested_readings = pos 0;
      }
  count_reading config (warning, _, _) c = record c {
    consecutive_stable_readings = pos 0;
    consecutive_congested_readings = pos 0;
  }
  count_reading config (disabled, _, _) c = c
  count_reading config (other _, _, _) c = c

  unfoldable pub process_signals :
      GatewayConfig Float
      → BackendLoadSignals Float
      → AdaptiveTtlController Float
      → AdaptiveTtlController Float
  process_signals config signals c =
      let reading = classify_backend_load config signals in
      count_reading config reading (record c {
        last_backend_p99_latency_ms = signals.p99_latency_ms;
        current_factor =
            clamp_adaptive_ttl_factor c.current_factor config.adaptive_ttl_min_factor
              config.adaptive_ttl_max_factor;
        current_state = reading.0;
      })

  -- The times to live of the two levels, and the factor.
  unfoldable pub effective_cache_ttls :
      GatewayConfig Float → AdaptiveTtlController Float → Duration × Duration × Float
  effective_cache_ttls config c =
      let factor =
        if config.adaptive_ttl_enabled
        then clamp_adaptive_ttl_factor (snapshot c).factor config.adaptive_ttl_min_factor
            config.adaptive_ttl_max_factor
        else adaptive_ttl_initial_factor in
      let base_l1_ttl = of_units config.l1_ttl_seconds second in
      let base_l2_ttl = of_units config.l2_ttl_seconds second in
      (
        o.to_int (o.mul (o.of_int base_l1_ttl) factor),
        o.to_int (o.mul (o.of_int base_l2_ttl) factor),
        factor,
      )

  unfoldable pub adaptive_ttl_state_metric_value : AdaptiveTtlState → Float
  adaptive_ttl_state_metric_value stable = o.decimal 1 0
  adaptive_ttl_state_metric_value warning = o.decimal 2 0
  adaptive_ttl_state_metric_value congested = o.decimal 3 0
  adaptive_ttl_state_metric_value disabled = o.decimal 0 0
  adaptive_ttl_state_metric_value (other _) = o.decimal 0 0
