-- ===== src/Adaptive/Classes.antt =====
-- How `classifyBackendLoad` of gateway/adaptive_ttl_controller.go reads the load of the backend.
use distributed_caching.Base.{ℕ, ◌≤◌, ◌≡◌, ◌⊎◌, ◌↔◌, true, arith}
use distributed_caching.Base.Int.{pos, ◌≤ℤ◌, ◌<ℤ◌}
use distributed_caching.Config.{GatewayConfig}
use distributed_caching.Floats.{Floats, FloatOrder}
use distributed_caching.Adaptive.{
  AdaptiveTtlState, disabled, stable, warning, congested, other, BackendLoadSignals,
  classify_backend_load,
}

-- How loaded the backend is in a state.
abbrev pub severity : AdaptiveTtlState → ℕ
severity stable = 0
severity warning = 1
severity congested = 2
severity disabled = 0
severity (other _) = 0

module _ {Float : Type 0} ⦃o : Floats Float⦄ (config : GatewayConfig Float) where
  -- With fewer than twenty samples the latency is not looked at.
  pub classify_few_samples :
      (signals : BackendLoadSignals Float) (p99 : Float)
      → signals.sample_count <ℤ pos 20
      → classify_backend_load config (record signals { p99_latency_ms = p99 })
        ≡ classify_backend_load config signals
  unfolding classify_backend_load
  classify_few_samples signals p99 few = ground arith

  -- A reading is classified as congested exactly if it has at least twenty samples and a latency
  -- that reaches the threshold, or as many active requests as the threshold.
  pub classify_congested_iff :
      (signals : BackendLoadSignals Float)
      → ((classify_backend_load config signals).0 ≡ congested) ↔ (
          ((pos 20 ≤ℤ signals.sample_count)
            × (o.le (o.of_int config.adaptive_ttl_latency_threshold_ms) signals.p99_latency_ms
                ≡ true))
          ⊎ (config.adaptive_ttl_concurrency_threshold ≤ℤ signals.active_requests))
  unfolding classify_backend_load
  classify_congested_iff signals = ground arith

  -- If floats obey their order laws, then a reading with as many samples, at least the latency and
  -- at least the active requests of another is classified as at least as severe.
  pub classify_mono :
      (law : FloatOrder o) (signals worse : BackendLoadSignals Float)
      → signals.sample_count ≡ worse.sample_count
      → o.le signals.p99_latency_ms worse.p99_latency_ms ≡ true
      → signals.active_requests ≤ℤ worse.active_requests
      → severity (classify_backend_load config signals).0
        ≤ severity (classify_backend_load config worse).0
  unfolding classify_backend_load
  classify_mono law signals worse same slower busier =
      let limit = o.of_int config.adaptive_ttl_latency_threshold_ms in
      let calm = o.mul limit (o.decimal 9 1) in
      let quiet = o.mul (o.of_int config.adaptive_ttl_concurrency_threshold) (o.decimal 9 1) in
      ground (
        arith,
        law.le_trans limit signals.p99_latency_ms worse.p99_latency_ms,
        law.lt_of_le_lt signals.p99_latency_ms worse.p99_latency_ms calm,
        law.lt_of_le_lt (o.of_int signals.active_requests) (o.of_int worse.active_requests) quiet,
        law.of_int_mono signals.active_requests worse.active_requests busier,
      )
