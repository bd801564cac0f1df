-- ===== src/ConfigHandler.antt =====
-- gateway/cache_config_handler.go: the endpoints that answer and that change the configuration of
-- the gateways. Encoding the answers and logging are left out.
pub mod Outcomes
pub mod Answers
pub mod Fleet
pub mod Clears
use distributed_caching.Base.{ℕ, Bool, Option, none, some, String}
use distributed_caching.Base.Int.{ℤ}
use distributed_caching.Adaptive.{AdaptiveTtlSnapshot, BackendLoadSignals}
use distributed_caching.Config.{GatewayConfig}
use distributed_caching.Config.Validation.{Check, check_config}
use distributed_caching.ConfigStore.{update_config}
use distributed_caching.Fetch.{Env}
use distributed_caching.Gateway.{Server, outside, controlling, current_gateway_config}
use distributed_caching.L1.{clear_l1}
use distributed_caching.L2.{clear_l2}
use distributed_caching.Outside.{Io, pure, ◌>>=◌, ◌>>◌, Reply, ok, err, Codec}
use distributed_caching.Shared.Reset.{reset}
use distributed_caching.Time.{Duration}

module _ {W Float : Type 0} (env : Env W Float) (config_codec : Codec (GatewayConfig Float))
    (parse_int : String → Option ℤ) (snapshot_codec : Codec (AdaptiveTtlSnapshot Float))
    (signals : Io W (Reply (BackendLoadSignals Float))) (wait : Duration → Io W Bool) where
  open env use {floats, clock, redis, codec}

  -- The status, and the configuration that is answered.
  abbrev answer_config : Reply (GatewayConfig Float) → ℕ × Option (GatewayConfig Float)
  answer_config (err _) = (500, none)
  answer_config (ok config) = (200, some config)

  unfoldable pub get_cache_config : Io (Server W Float) (ℕ × Option (GatewayConfig Float))
  get_cache_config = do
    reply ← current_gateway_config env config_codec parse_int
    pure (answer_config reply)

  -- The assignments under `configMu`.
  unfoldable pub install : GatewayConfig Float → ℤ → Io (Server W Float) (Unit {0})
  install config version s =
      (tt, record s { gateway_config = config; config_version = version; l1 = clear_l1 s.l1 })

  abbrev pub reset_status : Option (Reply (Unit {0})) → Option ℕ
  reset_status none = none
  reset_status (some (err _)) = some 500
  reset_status (some (ok _)) = some 200

  -- After the second level was cleared.
  unfoldable pub reset_controller :
      ℕ → GatewayConfig Float → Reply (Unit {0}) → Io (Server W Float) (Option ℕ)
  reset_controller rounds config (err _) = pure (some 500)
  reset_controller rounds config (ok _) = do
    result ← controlling (reset env snapshot_codec signals wait rounds config.adaptive_ttl_enabled)
    pure (reset_status result)

  -- After the configuration was stored.
  unfoldable pub apply_stored : ℕ → GatewayConfig Float → Reply ℤ → Io (Server W Float) (Option ℕ)
  apply_stored rounds config (err _) = pure (some 500)
  apply_stored rounds config (ok version) = do
    install config version
    cleared ← outside (clear_l2 floats clock redis codec)
    reset_controller rounds config cleared

  -- After the checks.
  unfoldable pub store_checked : ℕ → GatewayConfig Float → Check → Io (Server W Float) (Option ℕ)
  store_checked rounds config (some message) = pure (some 400)
  store_checked rounds config none = do
    reply ← outside (update_config ⦃f = floats⦄ redis config_codec parse_int config)
    apply_stored rounds config reply

  -- The status; `none` when the rounds of `Reset` are used up. A body that does not decode is `none`.
  unfoldable pub update_cache_config :
      ℕ → Option (GatewayConfig Float) → Io (Server W Float) (Option ℕ)
  update_cache_config rounds none = pure (some 400)
  update_cache_config rounds (some config) =
      store_checked rounds config (check_config ⦃o = floats⦄ config)
