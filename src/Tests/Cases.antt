-- ===== src/Tests/Cases.antt =====
-- The inputs that the examples share: a configuration, values and readings of the load.
use distributed_caching.Base.{ℕ, ◌*◌, true, false, [], ◌∷◌}
use distributed_caching.Base.Int.{pos}
use distributed_caching.Adaptive.{BackendLoadSignals, AdaptiveTtlController, stable}
use distributed_caching.Cache.{KeyValue}
use distributed_caching.Config.{GatewayConfig}

-- The floats are in thousandths.
abbrev pub usual_config : GatewayConfig ℕ
usual_config = record {
  l1_max_entries = pos 100;
  l2_max_entries = pos 1000;
  l1_ttl_seconds = pos 15;
  l2_ttl_seconds = pos 60;
  single_flight_enabled = true;
  distributed_lock_enabled = false;
  probabilistic_early_refresh_enabled = false;
  early_refresh_beta = 1000;
  backend_timeout_ms = pos 2000;
  adaptive_ttl_enabled = true;
  adaptive_ttl_min_factor = 750;
  adaptive_ttl_max_factor = 4000;
  adaptive_ttl_latency_threshold_ms = pos 500;
  adaptive_ttl_concurrency_threshold = pos 12;
  adaptive_ttl_adjustment_interval_ms = pos 5000;
}

abbrev pub signals_at : ℕ → ℕ → BackendLoadSignals ℕ
signals_at p99 active = record {
  p99_latency_ms = p99;
  active_requests = pos active;
  max_concurrent_requests = pos 16;
  sample_count = pos 40;
}

abbrev pub controller_at : ℕ → AdaptiveTtlController ℕ
controller_at factor = record {
  current_factor = factor;
  current_state = stable;
  consecutive_stable_readings = pos 0;
  consecutive_congested_readings = pos 0;
  last_backend_p99_latency_ms = 0;
}

abbrev pub value_until : ℕ → KeyValue
value_until t = record {
  value = 104 ∷ 105 ∷ [];
  l1_expiration = pos t;
  l2_expiration = pos (2 * t);
  recompute_duration = pos 1_500_000;
}
