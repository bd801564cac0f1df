-- ===== src/ConfigHandler/Fleet/Reads.antt =====
-- What `currentGatewayConfig` of gateway/handler.go answers while other requests run.
use distributed_caching.Base.{
  ℕ, Bool, ◌≡◌, ◌≢◌, refl, ◌∙◌, String, Option, some, length, lookup, nat_keys, string_keys, ◌==◌,
  lookup-insert, lookup-insert_self, lookup-delete, Bool-cases, inl, inr, true, arith,
}
use distributed_caching.Base.Tests.{==_iff}
use distributed_caching.Base.Int.{ℤ, pos}
use distributed_caching.Adaptive.{AdaptiveTtlSnapshot, BackendLoadSignals}
use distributed_caching.Config.{GatewayConfig}
use distributed_caching.ConfigHandler.Fleet.{
  adopting, installing, Fleet, FleetEvent, FleetStep, reads, adopts, read, adopt, publish, finish,
  serve, work, in_world,
}
use distributed_caching.ConfigHandler.Fleet.Invariant.{IsTrue, read-IsTrue, FleetStep-IsTrue}
use distributed_caching.ConfigHandler.Fleet.Told.{adopt_config-told}
use distributed_caching.ConfigStore.{get_config}
use distributed_caching.ConfigStore.Working.{Counter, Works}
use distributed_caching.Fetch.{Env}
use distributed_caching.Floats.{FloatOrder}
use distributed_caching.Gateway.{Server, adopt_config, current_gateway_config}
use distributed_caching.Outside.{Io, Reply, ok, Codec}
use distributed_caching.Time.{Duration}

module _ {W Float : Type 0} (env : Env W Float) (config_codec : Codec (GatewayConfig Float))
    (parse_int : String → Option ℤ) where
  open env use {floats, redis}

  -- The two halves one after the other are `currentGatewayConfig`.
  current_gateway_config-halves :
      (server : Server W Float) (config : GatewayConfig Float) (version : ℤ)
      → (get_config ⦃f = floats⦄ redis config_codec parse_int server.world).0 ≡ ok (config, version)
      → let t = adopt_config env config version (record server {
        world = (get_config ⦃f = floats⦄ redis config_codec parse_int server.world).1;
      }) in
        current_gateway_config env config_codec parse_int server ≡ (ok t.gateway_config, t)
  unfolding current_gateway_config
  current_gateway_config-halves server config version answered =
      rw (answered, current_gateway_config) refl

module _ {W Float : Type 0} (env : Env W Float) (config_codec : Codec (GatewayConfig Float))
    (parse_int : String → Option ℤ) (snapshot_codec : Codec (AdaptiveTtlSnapshot Float))
    (signals : Io W (Reply (BackendLoadSignals Float))) (wait : Duration → Io W Bool)
    (value : W → String → Option String) where
  open env use {floats, redis}

  abbrev StepOf : Fleet W Float → FleetEvent → Fleet W Float → Type 0
  StepOf = FleetStep env config_codec parse_int snapshot_codec signals wait value

  -- Any steps but the second half of the request at the gateway.
  pub data Meanwhile (t g : ℕ) (s : Fleet W Float) : Fleet W Float → Type 0 where
    at_once : Meanwhile t g s s
    later :
        {u v : Fleet W Float} {e : FleetEvent}
        → Meanwhile t g s u
        → StepOf u e v
        → e ≢ adopts t g
        → Meanwhile t g s v

  FleetStep-task :
      (t g : ℕ) {config : GatewayConfig Float} {version : ℤ} {s u : Fleet W Float} {e : FleetEvent}
      → StepOf s e u
      → e ≢ adopts t g
      → lookup t s.tasks ≡ some (adopting g config version)
      → lookup t u.tasks ≡ some (adopting g config version)
  FleetStep-task t g {s} (read t' g' c v free answered) other mine =
      ground (arith, lookup-insert t' t (adopting g' c v) s.tasks, ==_iff t' t)
  FleetStep-task t g {s} (adopt t' g' c v server theirs here) other mine =
      elim (Bool-cases (t' == t)) [
        | inr apart ↦ ground (arith, lookup-delete t' t s.tasks)
        | inl same ↦ absurd (other (same_adopts same))
      ]
    where
      same_adopts : (t' == t) ≡ true → adopts t' g' ≡ adopts t g
      same_adopts same = ground (arith, ==_iff t' t)
  FleetStep-task t g {s} (publish t' g' c v trip valid free answered) other mine =
      ground (arith, lookup-insert t' t (installing g' c v) s.tasks, ==_iff t' t)
  FleetStep-task t g {s} (finish t' g' c v server theirs here) other mine =
      ground (arith, lookup-delete t' t s.tasks, ==_iff t' t)
  FleetStep-task t g (serve g' server server' here same_config same_version) other mine = mine
  FleetStep-task t g (work w same_text same_count) other mine = mine

  Meanwhile-task :
      (t g : ℕ) {config : GatewayConfig Float} {version : ℤ} {s u : Fleet W Float}
      → Meanwhile t g s u
      → lookup t s.tasks ≡ some (adopting g config version)
      → lookup t u.tasks ≡ some (adopting g config version)
  Meanwhile-task t g at_once mine = mine
  Meanwhile-task t g (later m st other) mine =
      FleetStep-task t g st other (Meanwhile-task t g m mine)

  module _ (counter : Counter parse_int) (works : Works redis value counter)
      (law : FloatOrder floats) where
    abbrev IsTrueHere : Fleet W Float → Type 0
    IsTrueHere = IsTrue env config_codec parse_int snapshot_codec signals wait value counter

    Meanwhile-IsTrue :
        (t g : ℕ) {s u : Fleet W Float} → Meanwhile t g s u → IsTrueHere s → IsTrueHere u
    Meanwhile-IsTrue t g at_once h = h
    Meanwhile-IsTrue t g (later m st other) h =
        FleetStep-IsTrue env config_codec parse_int snapshot_codec signals wait value counter works
          law st (Meanwhile-IsTrue t g m h)

    -- The gateway has the configuration, with the version.
    pub record Runs (s : Fleet W Float) (g : ℕ) (config : GatewayConfig Float) (version : ℤ)
        : Type 0 where
      pub server : Server W Float
      pub here : lookup g s.gateways ≡ some server
      pub config_is : server.gateway_config ≡ config
      pub version_is : server.config_version ≡ version

    adopts-Runs :
        (t g : ℕ) {config : GatewayConfig Float} {version : ℤ} {s u : Fleet W Float}
        → IsTrueHere s
        → lookup t s.tasks ≡ some (adopting g config version)
        → StepOf s (adopts t g) u
        → Runs u g config version
    adopts-Runs t g {config} {version} {s} h mine (adopt _ _ c v server theirs here) =
        let same : adopting g c v ≡ adopting g config version = ground arith in
        let told = h.at_task t _ theirs in
        let (taken, numbered) =
          adopt_config-told env (in_world s.world server) told (h.at_gateway g server here) in
        record {
          server = adopt_config env c v (in_world s.world server);
          here = ground (
            arith,
            lookup-insert g g (adopt_config env c v (in_world s.world server)) s.gateways,
          );
          config_is = taken ∙ cc;
          version_is = numbered ∙ cc;
        }

    -- In a Redis that works, with floats that obey their order laws, from a state in which what
    -- gateways and requests have was stored: if a request reads the shared configuration, then any
    -- other requests read, store and install configurations at any gateways, and then the request
    -- takes up what it read, its gateway has the configuration that was the latest when it read,
    -- with the version of that configuration.
    pub adopts_latest :
        (t g : ℕ) {s begun before done : Fleet W Float}
        → (h : IsTrueHere s) → StepOf s (reads t g) begun
        → Meanwhile t g begun before
        → StepOf before (adopts t g) done
        → Runs done g h.latest (pos (length s.published))
    adopts_latest t g {s} h (read _ _ c v free answered) m st =
        let (config_is, version_is, kept) =
          read-IsTrue env config_codec parse_int snapshot_codec signals wait value counter works law
            t g c v answered h in
        let begun_true =
          FleetStep-IsTrue env config_codec parse_int snapshot_codec signals wait value counter
            works law (read t g c v free answered) h in
        let mine = Meanwhile-task t g m (lookup-insert_self t (adopting g c v) s.tasks) in
        rw (← config_is, ← version_is) (adopts-Runs t g (Meanwhile-IsTrue t g m begun_true) mine st)
