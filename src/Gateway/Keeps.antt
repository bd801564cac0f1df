-- ===== src/Gateway/Keeps.antt =====
-- What every request that gateway/handler.go answers keeps: the first level linked, and what is known of
-- the configuration and of the controller.
use distributed_caching.Base.{ℕ, String, Option, Bool-cases, inl, inr, ◌≡◌}
use distributed_caching.Base.Int.{ℤ}
use distributed_caching.Adaptive.{AdaptiveTtlController, effective_cache_ttls}
use distributed_caching.Cache.{KeyValue}
use distributed_caching.Config.{GatewayConfig}
use distributed_caching.ConfigStore.{get_config}
use distributed_caching.Fetch.{Env, Fetched}
use distributed_caching.Gateway.{
  Server, outside, adopt_config, current_gateway_config, store_l1, store_answer, answer_fetched,
  fetch, outcome, answer_result, handle_backend_normally, answer_leader, finish_call, lead_call,
  handle_backend_single_flight, answer_l2_hit, serve_l1_miss, read_l1, serve_with, serve_http,
  same_version,
}
use distributed_caching.L1.Evicts.{set_l1-refines}
use distributed_caching.L1.Keeps.{clear_l1-IsLinked}
use distributed_caching.L1.Linked.{IsLinked}
use distributed_caching.L1.Refines.{get_l1-refines}
use distributed_caching.L2.{get_l2}
use distributed_caching.Lock.{is_success}
use distributed_caching.Outside.{Io, ok, Codec}
use distributed_caching.Outside.Keeping.{
  Keeping, if-Keeping, option-Keeping, reply-Keeping, if-kept, option-kept, reply-kept,
}
use distributed_caching.SingleFlight.{get_or_create_in_flight, finish_in_flight}
use distributed_caching.Time.{Duration}

module _ {W Float : Type 0} (env : Env W Float)
    -- What is known of the configuration and of the controller.
    (Q : GatewayConfig Float → AdaptiveTtlController Float → Type 0) where
  abbrev pub Holds : Server W Float → Type 0
  Holds s = IsLinked s.l1 × Q s.gateway_config s.controller

  -- An action that keeps it.
  abbrev pub Keeps : {A : Type 0} → Io (Server W Float) A → Type 0
  Keeps m = Keeping Holds m

  outside-Keeps : {A : Type 0} (m : Io W A) → Keeps (outside m)
  outside-Keeps m s inv = inv

  store_l1-Keeps :
      (key : String) (v : KeyValue) (ttl : Duration) (config : GatewayConfig Float)
      → Keeps (store_l1 env key v ttl config)
  unfolding store_l1
  store_l1-Keeps key v ttl config s inv =
      ((set_l1-refines s.l1 inv.0 key _ config.l1_max_entries).0, inv.1)

  finish_call-Keeps : (key : String) (call : ℕ) (f : Fetched) → Keeps (finish_call env key call f)
  unfolding finish_call
  finish_call-Keeps key call f s inv =
      option-kept Holds (finish_in_flight key call (outcome env f) s.flights) _ _ inv
        (λ flights. inv)

  module _ (key : String) (ttl_l1 ttl_l2 : Duration) (config : GatewayConfig Float) where
    store_answer-Keeps : (v : KeyValue) → Keeps (store_answer env key v ttl_l1 ttl_l2 config)
    unfolding store_answer
    store_answer-Keeps v =
        if-Keeping Holds config.distributed_lock_enabled _ _ (store_l1-Keeps key v ttl_l1 config)
          (λ s inv. store_l1-Keeps key _ ttl_l1 config _ inv)

    answer_fetched-Keeps : (f : Fetched) → Keeps (answer_fetched env key f ttl_l1 ttl_l2 config)
    unfolding answer_fetched
    answer_fetched-Keeps f =
        option-Keeping Holds f.err _ _
          (if-Keeping Holds (is_success f.status_code) _ _ (store_answer-Keeps f.value) (λ t h. h))
          (λ e t h. h)

    handle_backend_normally-Keeps :
        (rounds : ℕ) → Keeps (handle_backend_normally env rounds key ttl_l1 ttl_l2 config)
    unfolding handle_backend_normally answer_result
    handle_backend_normally-Keeps rounds s inv =
        let (result, w) = fetch env rounds key ttl_l2 config s.world in
        option-Keeping Holds result _ _ (λ t h. h) (λ f. answer_fetched-Keeps f)
          (record s { world = w }) inv

    lead_call-Keeps : (rounds call : ℕ) → Keeps (lead_call env rounds key call ttl_l1 ttl_l2 config)
    unfolding lead_call answer_leader
    lead_call-Keeps rounds call s inv =
        let (result, w) = fetch env rounds key ttl_l2 config s.world in
        option-Keeping Holds result _ _ (λ t h. h)
          (λ f t h. finish_call-Keeps key call f _ (answer_fetched-Keeps f t h))
          (record s { world = w }) inv

    handle_backend_single_flight-Keeps :
        (rounds : ℕ) → Keeps (handle_backend_single_flight env rounds key ttl_l1 ttl_l2 config)
    unfolding handle_backend_single_flight
    handle_backend_single_flight-Keeps rounds s inv =
        let (call, is_leader, flights) = get_or_create_in_flight key s.flights in
        if-kept Holds is_leader _ _ (lead_call-Keeps rounds call _ inv) inv

    answer_l2_hit-Keeps : (v : KeyValue) → Keeps (answer_l2_hit env key v ttl_l1 ttl_l2 config)
    unfolding answer_l2_hit
    answer_l2_hit-Keeps v s inv = store_l1-Keeps key _ ttl_l1 config _ inv

    serve_l1_miss-Keeps : (rounds : ℕ) → Keeps (serve_l1_miss env rounds key ttl_l1 ttl_l2 config)
    unfolding serve_l1_miss
    serve_l1_miss-Keeps rounds s inv =
        option-Keeping Holds (get_l2 env.floats env.clock env.redis env.codec key s.world).0 _ _
          (if-Keeping Holds config.single_flight_enabled _ _
            (handle_backend_single_flight-Keeps rounds) (handle_backend_normally-Keeps rounds))
          (λ v. answer_l2_hit-Keeps v) _ inv

  pub read_l1-Keeps : (key : String) → Keeps (read_l1 env key)
  unfolding read_l1
  read_l1-Keeps key s inv = ((get_l1-refines s.l1 inv.0 key _).0, inv.1)

  serve_with-Keeps :
      (rounds : ℕ) (key : String) (config : GatewayConfig Float)
      → Keeps (serve_with env rounds key config)
  unfolding serve_with
  serve_with-Keeps rounds key config s inv =
      let (ttl_l1, ttl_l2, factor) = effective_cache_ttls ⦃o = env.floats⦄ config s.controller in
      let keeps = read_l1-Keeps key s inv in
      option-kept Holds (read_l1 env key s).0 _ _
        (serve_l1_miss-Keeps key ttl_l1 ttl_l2 config rounds _ keeps) (λ v. keeps)

  adopt_config-Keeps :
      (config : GatewayConfig Float) (version : ℤ) (s : Server W Float)
      → Holds s
      → Q config s.controller
      → Holds (adopt_config env config version s)
  unfolding adopt_config
  adopt_config-Keeps config version s inv known =
      elim (Bool-cases (same_version version s.config_version)) [
        | inl same ↦ rw (same, adopt_config) inv
        | inr other ↦ rw (other, adopt_config) (clear_l1-IsLinked s.l1, known)
      ]

  module _ (config_codec : Codec (GatewayConfig Float)) (parse_int : String → Option ℤ)
      -- What is known of a configuration that the store answers.
      (reads : (config : GatewayConfig Float) (version : ℤ) (s : Server W Float)
        → Holds s
        → (get_config ⦃f = env.floats⦄ env.redis config_codec parse_int s.world).0
          ≡ ok (config, version)
        → Q config s.controller) where
    pub current_gateway_config-Keeps : Keeps (current_gateway_config env config_codec parse_int)
    unfolding current_gateway_config
    current_gateway_config-Keeps s inv =
        let (reply, w) = get_config ⦃f = env.floats⦄ env.redis config_codec parse_int s.world in
        reply-kept Holds reply _ _ (λ e. inv)
          (λ (config, version) answered.
            adopt_config-Keeps config version (record s { world = w }) inv
              (reads config version s inv answered))

    pub serve_http-Keeps :
        (rounds : ℕ) (key : String) → Keeps (serve_http env config_codec parse_int rounds key)
    unfolding serve_http
    serve_http-Keeps rounds key s inv =
        let (reply, t) = current_gateway_config env config_codec parse_int s in
        reply-Keeping Holds reply _ _ (λ e t h. h) (λ config. serve_with-Keeps rounds key config) t
          (current_gateway_config-Keeps s inv)

-- If the map and the list of the first level are linked, they still are after ServeHTTP, whatever
-- the store, the second level, the lock and the backend answer.
pub serve_http-IsLinked :
    {W Float : Type 0} (env : Env W Float) (config_codec : Codec (GatewayConfig Float))
    (parse_int : String → Option ℤ) (rounds : ℕ) (key : String) (s : Server W Float)
    → IsLinked s.l1
    → IsLinked (serve_http env config_codec parse_int rounds key s).1.l1
serve_http-IsLinked env config_codec parse_int rounds key s inv =
    (serve_http-Keeps env (λ _ _. Unit {0}) config_codec parse_int (λ config version s h e. tt)
      rounds key s (inv, tt)).0
