-- ===== src/Config.antt =====
-- gateway/cache_config.go: the settings of a gateway, and the defaults of the adaptive TTL.
pub mod Defaults
pub mod Validation
use distributed_caching.Base.{Bool, if◌then◌else◌}
use distributed_caching.Base.Int.{ℤ, pos, leb_ℤ}
use distributed_caching.Floats.{Floats}

pub record GatewayConfig (Float : Type 0) : Type 0 where
  pub l1_max_entries : ℤ
  pub l2_max_entries : ℤ
  pub l1_ttl_seconds : ℤ
  pub l2_ttl_seconds : ℤ
  pub single_flight_enabled : Bool
  pub distributed_lock_enabled : Bool
  pub probabilistic_early_refresh_enabled : Bool
  pub early_refresh_beta : Float
  pub backend_timeout_ms : ℤ
  pub adaptive_ttl_enabled : Bool
  pub adaptive_ttl_min_factor : Float
  pub adaptive_ttl_max_factor : Float
  pub adaptive_ttl_latency_threshold_ms : ℤ
  pub adaptive_ttl_concurrency_threshold : ℤ
  pub adaptive_ttl_adjustment_interval_ms : ℤ

abbrev pub default_adaptive_ttl_latency_threshold_ms : ℤ
default_adaptive_ttl_latency_threshold_ms = pos 500

abbrev pub default_adaptive_ttl_concurrency_threshold : ℤ
default_adaptive_ttl_concurrency_threshold = pos 12

abbrev pub default_adaptive_ttl_adjustment_interval_ms : ℤ
default_adaptive_ttl_adjustment_interval_ms = pos 5000

-- `if n <= 0 { n = default }`
abbrev pub or_default : ℤ → ℤ → ℤ
or_default n default = if leb_ℤ n (pos 0) then default else n

module _ {Float : Type 0} ⦃o : Floats Float⦄ where
  abbrev pub default_adaptive_ttl_min_factor : Float
  default_adaptive_ttl_min_factor = o.decimal 75 2

  abbrev pub default_adaptive_ttl_max_factor : Float
  default_adaptive_ttl_max_factor = o.decimal 40 1

  unfoldable pub apply_adaptive_ttl_defaults : GatewayConfig Float → GatewayConfig Float
  apply_adaptive_ttl_defaults config = record config {
    adaptive_ttl_min_factor =
        if o.le config.adaptive_ttl_min_factor (o.decimal 0 0)
        then default_adaptive_ttl_min_factor
        else config.adaptive_ttl_min_factor;
    adaptive_ttl_max_factor =
        if o.le config.adaptive_ttl_max_factor (o.decimal 0 0)
        then default_adaptive_ttl_max_factor
        else config.adaptive_ttl_max_factor;
    adaptive_ttl_latency_threshold_ms =
        or_default config.adaptive_ttl_latency_threshold_ms
          default_adaptive_ttl_latency_threshold_ms;
    adaptive_ttl_concurrency_threshold =
        or_default config.adaptive_ttl_concurrency_threshold
          default_adaptive_ttl_concurrency_threshold;
    adaptive_ttl_adjustment_interval_ms =
        or_default config.adaptive_ttl_adjustment_interval_ms
          default_adaptive_ttl_adjustment_interval_ms;
  }
