-- ===== src/Gateway/Repeat.antt =====
-- Two requests for one key to gateway/handler.go: the first is answered by the backend, the second
-- by the first level.
use distributed_caching.Base.{ℕ, true, false, String, Option, none, some, ◌≡◌, refl, ◌∙◌, ap}
use distributed_caching.Base.Int.{ℤ, pos, ◌<ℤ◌}
use distributed_caching.Adaptive.{effective_cache_ttls}
use distributed_caching.Cache.{KeyValue}
use distributed_caching.Config.{GatewayConfig}
use distributed_caching.ConfigStore.{get_config}
use distributed_caching.Fetch.{Env, Fetched}
use distributed_caching.Gateway.{
  Server, adopt_config, current_gateway_config, fetch, handle_backend_normally, store_answer,
  serve_l1_miss, read_l1, serve_with, serve_http, same_version,
}
use distributed_caching.Gateway.Keeps.{read_l1-Keeps, current_gateway_config-Keeps}
use distributed_caching.Gateway.Stored.{is_good, fetched_state, handle_backend_normally-good}
use distributed_caching.L1.{get_l1, is_expired}
use distributed_caching.L1.Linked.{IsLinked}
use distributed_caching.L2.{get_l2}
use distributed_caching.Outside.{◌>>=◌, ok, Codec}
use distributed_caching.Time.{Duration}

module _ {W Float : Type 0} (env : Env W Float) (config_codec : Codec (GatewayConfig Float))
    (parse_int : String → Option ℤ) (rounds : ℕ) (key : String) where
  open env use {floats, clock, redis, codec}

  serve_http-config :
      (s : Server W Float) (config : GatewayConfig Float)
      → (current_gateway_config env config_codec parse_int s).0 ≡ ok config
      → serve_http env config_codec parse_int rounds key s
        ≡ serve_with env rounds key config (current_gateway_config env config_codec parse_int s).1
  unfolding serve_http
  serve_http-config s config e = rw (e, serve_http, ◌>>=◌) refl

  -- The times to live that `ServeHTTP` computes.
  abbrev pub ttl_of_l1 : GatewayConfig Float → Server W Float → Duration
  ttl_of_l1 config s = (effective_cache_ttls ⦃o = floats⦄ config s.controller).0

  abbrev pub ttl_of_l2 : GatewayConfig Float → Server W Float → Duration
  ttl_of_l2 config s = (effective_cache_ttls ⦃o = floats⦄ config s.controller).1

  serve_with-hit :
      (config : GatewayConfig Float) (t : Server W Float) (v : KeyValue)
      → (read_l1 env key t).0 ≡ some v
      → serve_with env rounds key config t
        ≡ (some (record { status = pos 200; body = v.value }), (read_l1 env key t).1)
  unfolding serve_with
  serve_with-hit config t v e = rw (e, serve_with) refl

  -- The state after both levels had nothing.
  abbrev pub after_misses : Server W Float → Server W Float
  after_misses t =
      let u = (read_l1 env key t).1 in
      record u { world = (get_l2 floats clock redis codec key u.world).1 }

  serve_with-miss :
      (config : GatewayConfig Float) (t : Server W Float)
      → (read_l1 env key t).0 ≡ none
      → (get_l2 floats clock redis codec key (read_l1 env key t).1.world).0 ≡ none
      → config.single_flight_enabled ≡ false
      → serve_with env rounds key config t
        ≡ handle_backend_normally env rounds key
            (ttl_of_l1 config t)
            (ttl_of_l2 config t)
            config
            (after_misses t)
  unfolding serve_with serve_l1_miss
  serve_with-miss config t absent away single =
      rw (absent, serve_with) (rw (away, serve_l1_miss, ◌>>=◌) (rw single refl))

  -- A configuration of the version that the gateway has is not taken up again.
  current-same :
      (config : GatewayConfig Float) (version : ℤ) (s : Server W Float)
      → (get_config ⦃f = floats⦄ redis config_codec parse_int s.world).0 ≡ ok (config, version)
      → same_version version s.config_version ≡ true
      → current_gateway_config env config_codec parse_int s ≡ (
        ok s.gateway_config,
        record s { world = (get_config ⦃f = floats⦄ redis config_codec parse_int s.world).1 },
      )
  unfolding current_gateway_config adopt_config
  current-same config version s e same =
      rw (e, current_gateway_config) (rw (same, adopt_config) refl)

  -- What the store answers in a world, and the world after it.
  abbrev store_world : W → W
  store_world w = (get_config ⦃f = floats⦄ redis config_codec parse_int w).1

  -- A request that the first level answers, under a configuration of the same version.
  serve_http-hit :
      (n : Server W Float) (config : GatewayConfig Float) (version : ℤ) (v : KeyValue)
      → (get_config ⦃f = floats⦄ redis config_codec parse_int n.world).0 ≡ ok (config, version)
      → same_version version n.config_version ≡ true
      → (get_l1 (clock.now (store_world n.world)).0 key n.l1).0 ≡ some v
      → ((serve_http env config_codec parse_int rounds key n).0
          ≡ some (record { status = pos 200; body = v.value }))
        × ((serve_http env config_codec parse_int rounds key n).1.world
            ≡ (clock.now (store_world n.world)).1)
  unfolding read_l1
  serve_http-hit n config version v e same here =
      let m : Server W Float = record n { world = store_world n.world } in
      let now_in_use = current-same config version n e same in
      let served : serve_http env config_codec parse_int rounds key n
          ≡ (some (record { status = pos 200; body = v.value }), (read_l1 env key m).1) =
        serve_http-config n n.gateway_config (ap (λ r. r.0) now_in_use)
        ∙ ap (λ r. serve_with env rounds key n.gateway_config r.1) now_in_use
        ∙ serve_with-hit n.gateway_config m v here in
      (ap (λ r. r.0) served, ap (λ r. r.1.world) served)

  -- After the configuration was read.
  abbrev pub configured : Server W Float → Server W Float
  configured s = (current_gateway_config env config_codec parse_int s).1

  module _ (s : Server W Float) (config : GatewayConfig Float) (f : Fetched) where
    -- The first request finds nothing in either level, and the backend gives a good answer.
    pub record FirstRequest : Type 0 where
      pub in_use : (current_gateway_config env config_codec parse_int s).0 ≡ ok config
      pub single : config.single_flight_enabled ≡ false
      pub limit : pos 0 <ℤ config.l1_max_entries
      pub absent : (read_l1 env key (configured s)).0 ≡ none
      pub away :
          (get_l2 floats clock redis codec key (read_l1 env key (configured s)).1.world).0 ≡ none
      pub answered :
          (fetch env rounds key
            (ttl_of_l2 config (configured s))
            config
            (after_misses (configured s)).world).0
          ≡ some f
      pub good : is_good f ≡ true

    module _ (linked : IsLinked s.l1) (first : FirstRequest) where
      open first use {in_use, single, limit, absent, away, answered, good}

      abbrev fetching : Server W Float
      fetching = after_misses (configured s)

      fetching-IsLinked : IsLinked fetching.l1
      fetching-IsLinked =
          (read_l1-Keeps env (λ _ _. Unit {0}) key (configured s)
            (current_gateway_config-Keeps env (λ _ _. Unit {0}) config_codec parse_int
              (λ c n t h e. tt) s (linked, tt))).0

      served_first :
          serve_http env config_codec parse_int rounds key s
          ≡ handle_backend_normally env rounds key
              (ttl_of_l1 config (configured s))
              (ttl_of_l2 config (configured s))
              config
              fetching
      served_first =
          serve_http-config s config in_use
          ∙ serve_with-miss config (configured s) absent away single

      -- The value that the first request stores, with the time at which it expires.
      abbrev pub stored : KeyValue
      stored =
          (store_answer env key f.value (ttl_of_l1 config (configured s))
            (ttl_of_l2 config (configured s)) config
            (fetched_state env key (ttl_of_l1 config (configured s))
              (ttl_of_l2 config (configured s)) config rounds fetching f answered)).0

      -- The gateway at the second request, in a world that others may have changed.
      abbrev pub second : W → Server W Float
      second w = record (serve_http env config_codec parse_int rounds key s).1 { world = w }

      -- If the first level is linked, the single flight is off, the limit of the first level is
      -- above zero, and a request finds nothing in either level and fetches a good answer, then in
      -- any world in which the store answers the version that the gateway has and the stored value
      -- has not expired, a second request for the key is answered 200 with the body of the first
      -- answer, and leaves the world as the read of the configuration and one reading of the clock
      -- leave it.
      pub serve_http_repeated :
          (w : W) (again : GatewayConfig Float) (version : ℤ)
          → (get_config ⦃f = floats⦄ redis config_codec parse_int w).0 ≡ ok (again, version)
          → same_version version (second w).config_version ≡ true
          → is_expired (clock.now (store_world w)).0 stored ≡ false
          → (v : KeyValue) × ((serve_http env config_codec parse_int rounds key s).0
              ≡ some (record { status = f.status_code; body = v.value }))
            × ((serve_http env config_codec parse_int rounds key (second w)).0
                ≡ some (record { status = pos 200; body = v.value }))
            × ((serve_http env config_codec parse_int rounds key (second w)).1.world
                ≡ (clock.now (store_world w)).1)
      serve_http_repeated w again version e same fresh =
          let now = (clock.now (store_world w)).0 in
          let (v, here, answer) =
            handle_backend_normally-good env key (ttl_of_l1 config (configured s))
              (ttl_of_l2 config (configured s)) config rounds fetching f answered now
              fetching-IsLinked limit good fresh in
          let (body, rest) =
            serve_http-hit (second w) again version v e same
              (ap (λ r. (get_l1 now key r.1.l1).0) served_first ∙ here) in
          (v, ap (λ r. r.0) served_first ∙ answer, body, rest)
