-- ===== src/Gateway.antt =====
-- gateway/handler.go, and the leader's part of gateway/singleflight.go: what a gateway does with a
-- request, from its own state and the world. Metrics and logs are left out.
pub mod Start
pub mod Director
pub mod Keeps
pub mod Stored
pub mod Repeat
use distributed_caching.Base.{
  ℕ, Bool, true, false, ◌||◌, ◌&&◌, not, String, [], Option, none, some, if◌then◌else◌,
}
use distributed_caching.Base.Int.{ℤ, pos, leb_ℤ}
use distributed_caching.Adaptive.{AdaptiveTtlController, effective_cache_ttls}
use distributed_caching.Cache.{KeyValue}
use distributed_caching.Config.{GatewayConfig}
use distributed_caching.ConfigStore.{get_config}
use distributed_caching.EarlyRefresh.{try_probabilistic_early_refresh}
use distributed_caching.Fetch.{Env, Fetched, fetch_from_backend}
use distributed_caching.Floats.{Floats}
use distributed_caching.L1.{L1, get_l1, set_l1, clear_l1}
use distributed_caching.L2.{get_l2, set_l2}
use distributed_caching.Lock.{is_success, fetch_with_distributed_lock}
use distributed_caching.Outside.{Io, pure, ◌>>=◌, ◌>>◌, Reply, ok, err, Codec}
use distributed_caching.Shared.{Control}
use distributed_caching.SingleFlight.{
  Response, Flights, Outcome, get_or_create_in_flight, finish_in_flight, leader_response,
}
use distributed_caching.Time.{Duration, add}

-- The handler's own state beside the world.
pub record Server (W Float : Type 0) : Type 0 where
  pub l1 : L1
  pub gateway_config : GatewayConfig Float
  pub config_version : ℤ
  pub controller : AdaptiveTtlController Float
  pub flights : Flights
  pub world : W

-- An action on the world alone.
abbrev pub outside : {W Float A : Type 0} → Io W A → Io (Server W Float) A
outside m s = let (a, w) = m s.world in (a, record s { world = w })

-- An action on the controller and the world alone.
abbrev pub controlling : {W Float A : Type 0} → Io (Control W Float) A → Io (Server W Float) A
controlling m s =
    let (a, t) = m (record { controller = s.controller; world = s.world }) in
    (a, record s { controller = t.controller; world = t.world })

unfoldable pub same_version : ℤ → ℤ → Bool
same_version a b = leb_ℤ a b && leb_ℤ b a

module _ {W Float : Type 0} (env : Env W Float) where
  open env use {floats, clock, redis, codec, backend}

  unfoldable pub adopt_config : GatewayConfig Float → ℤ → Server W Float → Server W Float
  adopt_config config version s =
      if same_version version s.config_version
      then s
      else record s { l1 = clear_l1 s.l1; gateway_config = config; config_version = version }

  module _ (config_codec : Codec (GatewayConfig Float)) (parse_int : String → Option ℤ) where
    unfoldable pub current_gateway_config : Io (Server W Float) (Reply (GatewayConfig Float))
    current_gateway_config s =
        let (reply, w) = get_config ⦃f = floats⦄ redis config_codec parse_int s.world in
        elim reply [
          | err e ↦ (err e, record s { world = w })
          | ok (config, version) ↦
              let t = adopt_config config version (record s { world = w }) in
              (ok t.gateway_config, t)
        ]

  -- `setL1` of a value that lives for `ttlL1` from now on.
  unfoldable pub store_l1 :
      String → KeyValue → Duration → GatewayConfig Float → Io (Server W Float) KeyValue
  store_l1 key value ttl_l1 config s =
      let (now, w) = clock.now s.world in
      let dated = record value { l1_expiration = add now ttl_l1 } in
      (dated, record s { l1 = set_l1 key dated config.l1_max_entries s.l1; world = w })

  -- The end of `handleBackendNormally`: a good answer is stored in both levels, the second of which
  -- the owner of the distributed lock has written already.
  unfoldable pub store_answer :
      String → KeyValue → Duration → Duration → GatewayConfig Float → Io (Server W Float) KeyValue
  store_answer key value ttl_l1 ttl_l2 config =
      if config.distributed_lock_enabled then store_l1 key value ttl_l1 config else (do
        now ← outside clock.now
        let dated = record value { l2_expiration = add now ttl_l2 }
        outside (set_l2 floats clock redis codec key dated ttl_l2 config.l2_max_entries)
        store_l1 key dated ttl_l1 config)

  unfoldable pub answer_fetched :
      String → Fetched → Duration → Duration → GatewayConfig Float → Io (Server W Float) Response
  answer_fetched key fetched ttl_l1 ttl_l2 config = elim fetched.err [
    | some _ ↦ pure (record { status = fetched.status_code; body = [] })
    | none ↦
        if is_success fetched.status_code
        then (do
          store_answer key fetched.value ttl_l1 ttl_l2 config
          pure (record { status = fetched.status_code; body = fetched.value.value }))
        else pure (record { status = fetched.status_code; body = fetched.value.value })
  ]

  -- `none` when the rounds of the distributed lock are used up.
  unfoldable pub fetch : ℕ → String → Duration → GatewayConfig Float → Io W (Option Fetched)
  fetch rounds key ttl_l2 config =
      if config.distributed_lock_enabled
      then fetch_with_distributed_lock env rounds key ttl_l2 config
      else (do fetched ← fetch_from_backend env key config.backend_timeout_ms; pure (some fetched))

  unfoldable pub answer_result :
      String
      → Duration
      → Duration
      → GatewayConfig Float
      → Option Fetched
      → Io (Server W Float) (Option Response)
  answer_result key ttl_l1 ttl_l2 config result = elim result [
    | none ↦ pure none
    | some fetched ↦ do answer ← answer_fetched key fetched ttl_l1 ttl_l2 config; pure (some answer)
  ]

  unfoldable pub handle_backend_normally :
      ℕ → String → Duration → Duration → GatewayConfig Float → Io (Server W Float) (Option Response)
  handle_backend_normally rounds key ttl_l1 ttl_l2 config = do
    result ← outside (fetch rounds key ttl_l2 config)
    answer_result key ttl_l1 ttl_l2 config result

  abbrev pub outcome : Fetched → Outcome
  outcome fetched = record {
    body = fetched.value.value;
    status_code = fetched.status_code;
    err = fetched.err;
  }

  -- The leader is answered 502 where `handleBackendNormally` answers the status of the fetch.
  unfoldable pub answer_leader :
      String → Fetched → Duration → Duration → GatewayConfig Float → Io (Server W Float) Response
  answer_leader key fetched ttl_l1 ttl_l2 config = do
    answer_fetched key fetched ttl_l1 ttl_l2 config
    pure (leader_response (outcome fetched))

  -- The deferred `finishInFlight`; that it does not panic is a theorem on `finish_in_flight`.
  unfoldable pub finish_call : String → ℕ → Fetched → Io (Server W Float) (Unit {0})
  finish_call key call fetched s = elim (finish_in_flight key call (outcome fetched) s.flights) [
    | none ↦ (tt, s)
    | some flights ↦ (tt, record s { flights = flights })
  ]

  unfoldable pub lead_call :
      ℕ
      → String
      → ℕ
      → Duration
      → Duration
      → GatewayConfig Float
      → Io (Server W Float) (Option Response)
  lead_call rounds key call ttl_l1 ttl_l2 config = do
    result ← outside (fetch rounds key ttl_l2 config)
    elim result [
      | none ↦ pure none
      | some fetched ↦ do
        answer ← answer_leader key fetched ttl_l1 ttl_l2 config
        finish_call key call fetched
        pure (some answer)
    ]

  -- `none` is a request that waits for the leader.
  unfoldable pub handle_backend_single_flight :
      ℕ → String → Duration → Duration → GatewayConfig Float → Io (Server W Float) (Option Response)
  handle_backend_single_flight rounds key ttl_l1 ttl_l2 config s =
      let (call, is_leader, flights) = get_or_create_in_flight key s.flights in
      if is_leader
      then lead_call rounds key call ttl_l1 ttl_l2 config (record s { flights = flights })
      else (none, s)

  -- A hit in the second level, refreshed early if it is due, enters the first.
  unfoldable pub refreshed_or_cached :
      String → KeyValue → Duration → GatewayConfig Float → Io W KeyValue
  refreshed_or_cached key value ttl_l2 config =
      if config.probabilistic_early_refresh_enabled
      then (do
        refreshed ← try_probabilistic_early_refresh env key value ttl_l2 config
        elim refreshed [ none ↦ pure value | some v ↦ pure v ])
      else pure value

  unfoldable pub answer_l2_hit :
      String → KeyValue → Duration → Duration → GatewayConfig Float → Io (Server W Float) Response
  answer_l2_hit key value ttl_l1 ttl_l2 config = do
    current ← outside (refreshed_or_cached key value ttl_l2 config)
    store_l1 key current ttl_l1 config
    pure (record { status = pos 200; body = current.value })

  -- What `ServeHTTP` does when the first level has no value.
  unfoldable pub serve_l1_miss :
      ℕ → String → Duration → Duration → GatewayConfig Float → Io (Server W Float) (Option Response)
  serve_l1_miss rounds key ttl_l1 ttl_l2 config = do
    cached ← outside (get_l2 floats clock redis codec key)
    elim cached [
      | none ↦
          if config.single_flight_enabled
          then handle_backend_single_flight rounds key ttl_l1 ttl_l2 config
          else handle_backend_normally rounds key ttl_l1 ttl_l2 config
      | some value ↦ do answer ← answer_l2_hit key value ttl_l1 ttl_l2 config; pure (some answer)
    ]

  unfoldable pub read_l1 : String → Io (Server W Float) (Option KeyValue)
  read_l1 key s =
      let (now, w) = clock.now s.world in
      let (found, l1) = get_l1 now key s.l1 in (found, record s { l1 = l1; world = w })

  -- `ServeHTTP` after the configuration was read.
  unfoldable pub serve_with :
      ℕ → String → GatewayConfig Float → Io (Server W Float) (Option Response)
  serve_with rounds key config s =
      let (ttl_l1, ttl_l2, factor) = effective_cache_ttls ⦃o = floats⦄ config s.controller in
      let (found, t) = read_l1 key s in
      elim found [
        | none ↦ serve_l1_miss rounds key ttl_l1 ttl_l2 config t
        | some cached ↦ (some (record { status = pos 200; body = cached.value }), t)
      ]

  unfoldable pub serve_http :
      Codec (GatewayConfig Float)
      → (String → Option ℤ)
      → ℕ
      → String
      → Io (Server W Float) (Option Response)
  serve_http config_codec parse_int rounds key = do
    reply ← current_gateway_config config_codec parse_int
    elim reply [
      | err _ ↦ pure (some (record { status = pos 503; body = [] }))
      | ok config ↦ serve_with rounds key config
    ]
