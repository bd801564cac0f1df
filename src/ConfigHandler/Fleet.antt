-- ===== src/ConfigHandler/Fleet.antt =====
-- Any number of gateways over one Redis, whose requests read the configuration while others change
-- it: `currentGatewayConfig` of gateway/handler.go reads the store before it takes `configMu`, and
-- `updateCacheConfig` of gateway/cache_config_handler.go writes the store before it takes it, so
-- between the two halves of a call anything may happen.
pub mod Told
pub mod Stored
pub mod Invariant
pub mod Reads
use distributed_caching.Base.{
  ℕ, Bool, ◌≡◌, none, some, String, List, [], ◌∷◌, Option, lookup, insert, delete, nat_keys,
}
use distributed_caching.Base.Int.{ℤ}
use distributed_caching.Adaptive.{AdaptiveTtlSnapshot, BackendLoadSignals}
use distributed_caching.Config.{GatewayConfig}
use distributed_caching.Config.Validation.{check_config}
use distributed_caching.ConfigHandler.{install}
use distributed_caching.ConfigStore.{
  get_config, update_config, gateway_config_key, gateway_config_version_key,
}
use distributed_caching.Fetch.{Env}
use distributed_caching.Gateway.{Server, adopt_config}
use distributed_caching.Outside.{Io, Reply, ok, Codec, RoundTrips}
use distributed_caching.Time.{Duration}

-- The second half of a call, which a request has still to do at its gateway.
pub data Task (Float : Type 0) : Type 0 where
  adopting : ℕ → GatewayConfig Float → ℤ → Task Float
  installing : ℕ → GatewayConfig Float → ℤ → Task Float

-- The gateways by their number, the tasks by the number of the request, and all configurations that
-- were stored, the latest one first.
pub record Fleet (W Float : Type 0) : Type 0 where
  pub world : W
  pub gateways : List (ℕ × Server W Float)
  pub tasks : List (ℕ × Task Float)
  pub published : List (GatewayConfig Float)

-- The gateway in the world that it shares.
abbrev pub in_world : {W Float : Type 0} → W → Server W Float → Server W Float
in_world w server = record server { world = w }

-- Which request takes a step at which gateway, and which half it is.
pub data FleetEvent : Type 0 where
  reads adopts publishes installs : ℕ → ℕ → FleetEvent
  serves works_on : FleetEvent

module _ {W Float : Type 0} (env : Env W Float) (config_codec : Codec (GatewayConfig Float))
    (parse_int : String → Option ℤ) (snapshot_codec : Codec (AdaptiveTtlSnapshot Float))
    (signals : Io W (Reply (BackendLoadSignals Float))) (wait : Duration → Io W Bool)
    (value : W → String → Option String) where
  open env use {floats, redis}

  -- A gateway serves without its configuration being changed, and the world goes on without the two
  -- keys of the configuration being written.
  pub data FleetStep (s : Fleet W Float) : FleetEvent → Fleet W Float → Type 0 where
    read :
        (t g : ℕ) (config : GatewayConfig Float) (version : ℤ)
        → lookup t s.tasks ≡ none
        → (get_config ⦃f = floats⦄ redis config_codec parse_int s.world).0 ≡ ok (config, version)
        → FleetStep s (reads t g) (record s {
          world = (get_config ⦃f = floats⦄ redis config_codec parse_int s.world).1;
          tasks = insert t (adopting g config version) s.tasks;
        })
    adopt :
        (t g : ℕ) (config : GatewayConfig Float) (version : ℤ) (server : Server W Float)
        → lookup t s.tasks ≡ some (adopting g config version)
        → lookup g s.gateways ≡ some server
        → FleetStep s (adopts t g) (record s {
          gateways =
              insert g (adopt_config env config version (in_world s.world server)) s.gateways;
          tasks = delete t s.tasks;
        })
    publish :
        (t g : ℕ) (config : GatewayConfig Float) (version : ℤ)
        → RoundTrips config_codec config
        → check_config ⦃o = floats⦄ config ≡ none
        → lookup t s.tasks ≡ none
        → (update_config ⦃f = floats⦄ redis config_codec parse_int config s.world).0 ≡ ok version
        → FleetStep s (publishes t g) (record s {
          world = (update_config ⦃f = floats⦄ redis config_codec parse_int config s.world).1;
          tasks = insert t (installing g config version) s.tasks;
          published = config ∷ s.published;
        })
    finish :
        (t g : ℕ) (config : GatewayConfig Float) (version : ℤ) (server : Server W Float)
        → lookup t s.tasks ≡ some (installing g config version)
        → lookup g s.gateways ≡ some server
        → FleetStep s (installs t g) (record s {
          gateways =
              insert g
                (install env config_codec parse_int snapshot_codec signals wait config version
                  (in_world s.world server)).1
                s.gateways;
          tasks = delete t s.tasks;
        })
    serve :
        (g : ℕ) (server later : Server W Float)
        → lookup g s.gateways ≡ some server
        → later.gateway_config ≡ server.gateway_config
        → later.config_version ≡ server.config_version
        → FleetStep s serves (record s { gateways = insert g later s.gateways })
    work :
        (w : W)
        → value w gateway_config_key ≡ value s.world gateway_config_key
        → value w gateway_config_version_key ≡ value s.world gateway_config_version_key
        → FleetStep s works_on (record s { world = w })
