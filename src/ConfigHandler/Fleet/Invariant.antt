-- ===== src/ConfigHandler/Fleet/Invariant.antt =====
-- What holds however the requests of the gateways interleave, in a Redis that works.
use distributed_caching.Base.{
  ℕ, suc, Bool, ◌≡◌, sym, ◌∙◌, ap, String, Option, none, List, ◌∷◌, length, insert, delete,
  nat_keys, string_keys, Everywhere, Everywhere-insert, Everywhere-delete, Everywhere-map,
}
use distributed_caching.Base.Int.{ℤ, pos}
use distributed_caching.Adaptive.{AdaptiveTtlSnapshot, BackendLoadSignals}
use distributed_caching.Config.{GatewayConfig}
use distributed_caching.Config.Validation.{check_config}
use distributed_caching.ConfigHandler.{install}
use distributed_caching.ConfigHandler.Fleet.{
  Task, adopting, installing, Fleet, FleetEvent, FleetStep, read, adopt, publish, finish, serve,
  work, in_world,
}
use distributed_caching.ConfigHandler.Fleet.Stored.{
  IsStored, get_config-stored, update_config-stored,
}
use distributed_caching.ConfigHandler.Fleet.Told.{
  IsTold, IsTold-cons, IsTold-latest, adopt_config-told,
}
use distributed_caching.ConfigStore.{
  get_config, update_config, gateway_config_key, gateway_config_version_key,
}
use distributed_caching.ConfigStore.Working.{Counter, Works}
use distributed_caching.Fetch.{Env}
use distributed_caching.Floats.{FloatOrder}
use distributed_caching.Gateway.{Server}
use distributed_caching.Outside.{Io, Reply, ok, Codec, RoundTrips}
use distributed_caching.Time.{Duration}

abbrev pub task_config : {Float : Type 0} → Task Float → GatewayConfig Float
task_config (adopting g c v) = c
task_config (installing g c v) = c

abbrev pub task_version : {Float : Type 0} → Task Float → ℤ
task_version (adopting g c v) = v
task_version (installing g c v) = v

abbrev pub GatewayTold : {W Float : Type 0} → List (GatewayConfig Float) → Server W Float → Type 0
GatewayTold cs server = IsTold cs server.gateway_config server.config_version

abbrev pub TaskTold : {Float : Type 0} → List (GatewayConfig Float) → Task Float → Type 0
TaskTold cs task = IsTold cs (task_config task) (task_version task)

ok-injective : {A : Type 0} {a b : A} → ok a ≡ ok b → a ≡ b
ok-injective h = cc

module _ {W Float : Type 0} (env : Env W Float) (config_codec : Codec (GatewayConfig Float))
    (parse_int : String → Option ℤ) (snapshot_codec : Codec (AdaptiveTtlSnapshot Float))
    (signals : Io W (Reply (BackendLoadSignals Float))) (wait : Duration → Io W Bool)
    (value : W → String → Option String) (counter : Counter parse_int) where
  open env use {floats, redis}

  -- What a gateway and a task have was stored, and Redis has the latest.
  pub record IsTrue (s : Fleet W Float) : Type 0 where
    pub latest : GatewayConfig Float
    pub earlier : List (GatewayConfig Float)
    pub history : s.published ≡ latest ∷ earlier
    pub stored :
        IsStored env config_codec parse_int value counter s.world latest (suc (length earlier))
    pub at_gateway : Everywhere (GatewayTold s.published) s.gateways
    pub at_task : Everywhere (TaskTold s.published) s.tasks

  module _ (works : Works redis value counter) (law : FloatOrder floats) where
    pub read-IsTrue :
        {s : Fleet W Float} (t g : ℕ) (config : GatewayConfig Float) (version : ℤ)
        → (get_config ⦃f = floats⦄ redis config_codec parse_int s.world).0 ≡ ok (config, version)
        → (h : IsTrue s)
        → (config ≡ h.latest)
          × (version ≡ pos (length s.published))
          × ((get_config ⦃f = floats⦄ redis config_codec parse_int s.world).1 ≡ s.world)
    read-IsTrue {s} t g config version answered h =
        let e =
          get_config-stored env config_codec parse_int value counter works law s.world h.latest
            (suc (length h.earlier)) h.stored in
        let same : (config, version) ≡ (h.latest, pos (suc (length h.earlier))) =
          ok-injective (sym answered ∙ ap (λ p. p.0) e) in
        (
          ap (λ p. p.0) same,
          ap (λ p. p.1) same ∙ ap (λ l. pos (length l)) (sym h.history),
          ap (λ p. p.1) e,
        )

    -- The end of a task at a gateway.
    finished-IsTrue :
        {s : Fleet W Float} (t g : ℕ) (server : Server W Float)
        → GatewayTold s.published server
        → IsTrue s
        → IsTrue (record s { gateways = insert g server s.gateways; tasks = delete t s.tasks })
    finished-IsTrue {s} t g server told h = record {
      latest = h.latest;
      earlier = h.earlier;
      history = h.history;
      stored = h.stored;
      at_gateway =
          Everywhere-insert (GatewayTold s.published) g server s.gateways told h.at_gateway;
      at_task = Everywhere-delete (TaskTold s.published) t s.tasks h.at_task;
    }

    begun-IsTrue :
        {s : Fleet W Float} (t g : ℕ) (config : GatewayConfig Float) (version : ℤ)
        → (get_config ⦃f = floats⦄ redis config_codec parse_int s.world).0 ≡ ok (config, version)
        → IsTrue s
        → IsTrue (record s {
          world = (get_config ⦃f = floats⦄ redis config_codec parse_int s.world).1;
          tasks = insert t (adopting g config version) s.tasks;
        })
    begun-IsTrue {s} t g config version answered h =
        let (same, number, kept) = read-IsTrue t g config version answered h in
        let told : IsTold s.published config version =
          rw (same, number, h.history) (IsTold-latest h.latest h.earlier) in
        record {
          latest = h.latest;
          earlier = h.earlier;
          history = h.history;
          stored = rw kept h.stored;
          at_gateway = h.at_gateway;
          at_task = Everywhere-insert (TaskTold s.published) t _ s.tasks told h.at_task;
        }

    published-IsTrue :
        {s : Fleet W Float} (t g : ℕ) (config : GatewayConfig Float) (version : ℤ)
        → RoundTrips config_codec config
        → check_config ⦃o = floats⦄ config ≡ none
        → (update_config ⦃f = floats⦄ redis config_codec parse_int config s.world).0 ≡ ok version
        → IsTrue s
        → IsTrue (record s {
          world = (update_config ⦃f = floats⦄ redis config_codec parse_int config s.world).1;
          tasks = insert t (installing g config version) s.tasks;
          published = config ∷ s.published;
        })
    published-IsTrue {s} t g config version trip valid answered h =
        let (reply, kept) =
          update_config-stored env config_codec parse_int value counter works law s.world h.latest
            config (suc (length h.earlier)) trip valid h.stored in
        let told : IsTold (config ∷ s.published) config version =
          rw (ok-injective (sym answered ∙ reply), h.history)
            (IsTold-latest config (h.latest ∷ h.earlier)) in
        let tasks = Everywhere-map _ _ s.tasks (λ task. IsTold-cons config) h.at_task in
        record {
          latest = config;
          earlier = h.latest ∷ h.earlier;
          history = ap (λ l. config ∷ l) h.history;
          stored = kept;
          at_gateway = Everywhere-map _ _ s.gateways (λ server. IsTold-cons config) h.at_gateway;
          at_task = Everywhere-insert (TaskTold (config ∷ s.published)) t _ s.tasks told tasks;
        }

    worked-IsTrue :
        {s : Fleet W Float} (w : W)
        → value w gateway_config_key ≡ value s.world gateway_config_key
        → value w gateway_config_version_key ≡ value s.world gateway_config_version_key
        → IsTrue s
        → IsTrue (record s { world = w })
    worked-IsTrue w same_text same_count h = record {
      latest = h.latest;
      earlier = h.earlier;
      history = h.history;
      stored = record {
        text = h.stored.text;
        has_text = same_text ∙ h.stored.has_text;
        decodes = h.stored.decodes;
        usable = h.stored.usable;
        has_version = same_count ∙ h.stored.has_version;
      };
      at_gateway = h.at_gateway;
      at_task = h.at_task;
    }

    -- In a Redis that works, with floats that obey their order laws, every step of any request at
    -- any gateway keeps this: Redis has the latest stored configuration with its version, and
    -- every gateway and every request has a configuration that was stored, with the version under
    -- which it was stored.
    pub FleetStep-IsTrue :
        {s t : Fleet W Float} {e : FleetEvent}
        → FleetStep env config_codec parse_int snapshot_codec signals wait value s e t
        → IsTrue s
        → IsTrue t
    unfolding install
    FleetStep-IsTrue (read t g config version free answered) h =
        begun-IsTrue t g config version answered h
    FleetStep-IsTrue {s} (adopt t g config version server mine here) h =
        let told = h.at_task t _ mine in
        let (c, v) =
          adopt_config-told env (in_world s.world server) told (h.at_gateway g server here) in
        finished-IsTrue t g _ (rw (c, v) told) h
    FleetStep-IsTrue (publish t g config version trip valid free answered) h =
        published-IsTrue t g config version trip valid answered h
    FleetStep-IsTrue (finish t g config version server mine here) h =
        finished-IsTrue t g _ (h.at_task t _ mine) h
    FleetStep-IsTrue {s} (serve g server later here same_config same_version) h = record {
      latest = h.latest;
      earlier = h.earlier;
      history = h.history;
      stored = h.stored;
      at_gateway =
          Everywhere-insert (GatewayTold s.published) g later s.gateways
            (rw (same_config, same_version) (h.at_gateway g server here)) h.at_gateway;
      at_task = h.at_task;
    }
    FleetStep-IsTrue (work w same_text same_count) h = worked-IsTrue w same_text same_count h
