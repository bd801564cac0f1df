-- ===== src/Polling.antt =====
-- `Run` of gateway/adaptive_ttl_controller.go, with the reading of the backend's load and the gauges
-- that it sets. The gauges of Prometheus are a parameter.
mod Pause
pub mod Sound
pub mod Reads
pub mod History
pub mod Kept
use distributed_caching.Base.{
  ℕ, zero, suc, ◌*◌, Bool, true, false, ◌||◌, String, Option, none, some, if◌then◌else◌,
}
use distributed_caching.Base.Int.{ℤ, pos, leb_ℤ, ltb_ℤ}
use distributed_caching.Adaptive.{
  AdaptiveTtlController, AdaptiveTtlSnapshot, BackendLoadSignals, disabled, snapshot,
  effective_cache_ttls, adaptive_ttl_state_metric_value,
}
use distributed_caching.Config.{GatewayConfig}
use distributed_caching.Fetch.{Env}
use distributed_caching.Gateway.{Server, outside, controlling, current_gateway_config}
use distributed_caching.Outside.{Io, pure, ◌>>=◌, ◌>>◌, Reply, ok, err, Codec}
use distributed_caching.Shared.{update_shared_state}
use distributed_caching.Time.{Duration, of_units, millisecond, second}

abbrev pub adaptive_ttl_fallback_interval : Duration
adaptive_ttl_fallback_interval = pos (5 * second)

-- The answer of the backend's load endpoint.
pub record LoadResponse : Type 0 where
  pub status_code : ℤ
  pub body : String

-- What the gauges are set to.
pub record Gauges (Float : Type 0) : Type 0 where
  pub factor : Float
  pub effective_seconds_l1 : Float
  pub effective_seconds_l2 : Float
  pub state : Float
  pub backend_p99_milliseconds : Float

module _ {W Float : Type 0} (signals_codec : Codec (BackendLoadSignals Float))
    (get_load : Io W (Reply LoadResponse)) where
  unfoldable pub decode_load : Reply LoadResponse → Reply (BackendLoadSignals Float)
  decode_load (err e) = err e
  decode_load (ok response) =
      if ltb_ℤ response.status_code (pos 200) || leb_ℤ (pos 300) response.status_code
      then err "backend load endpoint returned status"
      else elim (signals_codec.decode response.body) [
        | none ↦ err "failed to decode backend load signals"
        | some signals ↦ ok signals
      ]

  unfoldable pub read_backend_load_signals : Io W (Reply (BackendLoadSignals Float))
  read_backend_load_signals = do response ← get_load; pure (decode_load response)

-- The pause after an update.
unfoldable pub poll_interval : {Float : Type 0} → GatewayConfig Float → Duration
poll_interval config =
    let interval = of_units config.adaptive_ttl_adjustment_interval_ms millisecond in
    if leb_ℤ interval (pos 0) then adaptive_ttl_fallback_interval else interval

module _ {W Float : Type 0} (env : Env W Float) (config_codec : Codec (GatewayConfig Float))
    (parse_int : String → Option ℤ) (snapshot_codec : Codec (AdaptiveTtlSnapshot Float))
    (signals : Io W (Reply (BackendLoadSignals Float))) (wait : Duration → Io W Bool)
    (set_gauges : Gauges Float → Io W (Unit {0})) where
  open env use {floats, backend}

  unfoldable pub gauges : GatewayConfig Float → AdaptiveTtlController Float → Gauges Float
  gauges config controller =
      let now = snapshot ⦃o = floats⦄ controller in
      let (ttl_l1, ttl_l2, factor) = effective_cache_ttls ⦃o = floats⦄ config controller in
      record {
        factor = factor;
        effective_seconds_l1 = backend.seconds ttl_l1;
        effective_seconds_l2 = backend.seconds ttl_l2;
        state =
            adaptive_ttl_state_metric_value ⦃o = floats⦄
              (if config.adaptive_ttl_enabled then now.state else disabled);
        backend_p99_milliseconds = now.last_backend_p99_latency_ms;
      }

  unfoldable pub update_metrics : GatewayConfig Float → Io (Server W Float) (Unit {0})
  update_metrics config s = outside (set_gauges (gauges config s.controller)) s

  -- After `updateSharedState`.
  unfoldable pub report : GatewayConfig Float → Reply (Unit {0}) → Io (Server W Float) (Unit {0})
  report config (err e) = pure tt
  report config (ok _) = update_metrics config

  -- One round after the configuration was read, and the pause that follows.
  unfoldable pub poll_with : Reply (GatewayConfig Float) → Io (Server W Float) Duration
  poll_with (err e) = pure adaptive_ttl_fallback_interval
  poll_with (ok config) = do
    result ← controlling (update_shared_state env snapshot_codec signals config)
    report config result
    pure (poll_interval config)

  unfoldable pub poll : Io (Server W Float) Duration
  poll = do reply ← current_gateway_config env config_codec parse_int; poll_with reply

  -- So many rounds of `Run`, and whether the context ended in them.
  unfoldable pub run : ℕ → Io (Server W Float) Bool
  run zero s = (false, s)
  run (suc rounds) s =
      let (interval, t) = poll s in
      let (waited, u) = outside (wait interval) t in
      let rest = run rounds u in if waited then rest else (true, u)
