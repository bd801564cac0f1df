-- ===== src/Gateway/Start.antt =====
-- `NewHandler` of gateway/handler.go, for an address of the backend that can be parsed: the handler
-- that a gateway starts with. The reverse proxy and the client of Redis are parameters.
use distributed_caching.Base.{false, String, Option}
use distributed_caching.Base.Int.{ℤ, pos}
use distributed_caching.Adaptive.{new_controller}
use distributed_caching.Config.{
  GatewayConfig, default_adaptive_ttl_min_factor, default_adaptive_ttl_max_factor,
  default_adaptive_ttl_latency_threshold_ms, default_adaptive_ttl_concurrency_threshold,
  default_adaptive_ttl_adjustment_interval_ms,
}
use distributed_caching.ConfigStore.{initialize, get_config}
use distributed_caching.Fetch.{Env}
use distributed_caching.Gateway.{Server}
use distributed_caching.L1.{empty}
use distributed_caching.Outside.{Reply, ok, err, Codec}
use distributed_caching.SingleFlight.{no_flights}

module _ {W Float : Type 0} (env : Env W Float) (config_codec : Codec (GatewayConfig Float))
    (parse_int : String → Option ℤ) where
  open env use {floats, redis}

  abbrev pub default_config : GatewayConfig Float
  default_config = record {
    l1_max_entries = pos 35;
    l2_max_entries = pos 70;
    l1_ttl_seconds = pos 15;
    l2_ttl_seconds = pos 30;
    single_flight_enabled = false;
    distributed_lock_enabled = false;
    probabilistic_early_refresh_enabled = false;
    early_refresh_beta = floats.decimal 10 1;
    backend_timeout_ms = pos 7000;
    adaptive_ttl_enabled = false;
    adaptive_ttl_min_factor = default_adaptive_ttl_min_factor ⦃o = floats⦄;
    adaptive_ttl_max_factor = default_adaptive_ttl_max_factor ⦃o = floats⦄;
    adaptive_ttl_latency_threshold_ms = default_adaptive_ttl_latency_threshold_ms;
    adaptive_ttl_concurrency_threshold = default_adaptive_ttl_concurrency_threshold;
    adaptive_ttl_adjustment_interval_ms = default_adaptive_ttl_adjustment_interval_ms;
  }

  -- After the two replies of the store.
  unfoldable pub start_handler_with :
      Reply (Unit {0}) → Reply (GatewayConfig Float × ℤ) → W → Reply (Server W Float)
  start_handler_with (err e) reply w = err e
  start_handler_with (ok _) (err e) w = err e
  start_handler_with (ok _) (ok (config, version)) w = ok (record {
    l1 = empty;
    gateway_config = config;
    config_version = version;
    controller = new_controller ⦃o = floats⦄;
    flights = no_flights;
    world = w;
  })

  -- The second reply is read only after a first one without error.
  unfoldable pub new_handler : W → Reply (Server W Float)
  new_handler w =
      let (initialized, w1) =
        initialize ⦃f = floats⦄ redis config_codec parse_int default_config w in
      let (reply, w2) = get_config ⦃f = floats⦄ redis config_codec parse_int w1 in
      start_handler_with initialized reply w2
