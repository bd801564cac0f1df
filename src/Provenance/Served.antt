-- ===== src/Provenance/Served.antt =====
-- What `ServeHTTP` of gateway/handler.go answers to a request.
use distributed_caching.Base.{
  ℕ, ◌≡◌, subst, Bool, true, String, [], ◌∷◌, Option, some, inl, inr, Bool-cases, string_keys,
}
use distributed_caching.Base.Int.{ℤ, pos}
use distributed_caching.Adaptive.{effective_cache_ttls}
use distributed_caching.Cache.{KeyValue}
use distributed_caching.Config.{GatewayConfig}
use distributed_caching.ConfigStore.{gateway_config_key, gateway_config_version_key, get_config}
use distributed_caching.EarlyRefresh.{try_probabilistic_early_refresh}
use distributed_caching.Fetch.{Env}
use distributed_caching.Gateway.{
  Server, adopt_config, current_gateway_config, answer_l2_hit, serve_l1_miss, read_l1, serve_with,
  serve_http, same_version, refreshed_or_cached,
}
use distributed_caching.L1.Keeps.{clear_l1-IsLinked}
use distributed_caching.L2.{get_l2}
use distributed_caching.Outside.{Codec}
use distributed_caching.Outside.Ensuring.{
  Ensures, option-post, if-Ensures, option-Ensures, reply-Ensures,
}
use distributed_caching.Outside.Keeping.{Keeping, reply-Keeping, reply-kept}
use distributed_caching.Provenance.{
  IsFrom, IsSound, Documented, OwnKeys, FromOption, FromResponse, FromAnswer,
}
use distributed_caching.Provenance.Answers.{
  HoldsFrom, in_world-HoldsFrom, store_l1-Ensures, handle_backend_normally-Ensures,
  handle_backend_single_flight-Ensures,
}
use distributed_caching.Provenance.Fetches.{failed_503}
use distributed_caching.Provenance.Refreshed.{try_probabilistic_early_refresh-Ensures}
use distributed_caching.Provenance.First.{some_injective, get_l1-AllFrom, cleared_l1-AllFrom}
use distributed_caching.Provenance.Second.{Quiet-Keeping, get_l2-Ensures}
use distributed_caching.Time.{Duration}

module _ {W Float : Type 0} (env : Env W Float) (value : W → String → Option String)
    (is_key : String → Bool) (laws : Documented env value is_key) (own : OwnKeys env is_key) where
  open env use {floats, clock, redis, codec, backend}

  abbrev SoundHere : W → Type 0
  SoundHere = IsSound env value is_key

  abbrev Holds : Server W Float → Type 0
  Holds = HoldsFrom env value is_key

  module _ (key : String) (cached : is_key key ≡ true) (ttl_l1 ttl_l2 : Duration)
      (config : GatewayConfig Float) where
    refreshed_or_cached-Ensures :
        (v : KeyValue)
        → IsFrom env key v.value
        → Ensures SoundHere
            (refreshed_or_cached env key v ttl_l2 config)
            (λ (u : KeyValue). IsFrom env key u.value)
    unfolding refreshed_or_cached
    refreshed_or_cached-Ensures v from =
        if-Ensures SoundHere (λ (u : KeyValue). IsFrom env key u.value)
          config.probabilistic_early_refresh_enabled _ _
          (λ early w h.
            let (sound, new) =
              try_probabilistic_early_refresh-Ensures env value is_key laws own key cached v ttl_l2
                config w h in
            option-Ensures SoundHere (λ (u : KeyValue). IsFrom env key u.value)
              (try_probabilistic_early_refresh env key v ttl_l2 config w).0 _ _
              (λ kept t i. (i, from)) (λ u refreshed t i. (i, new u refreshed))
              (try_probabilistic_early_refresh env key v ttl_l2 config w).1 sound)
          (λ late w h. (h, from))

    answer_l2_hit-Ensures :
        (v : KeyValue)
        → IsFrom env key v.value
        → Ensures Holds (answer_l2_hit env key v ttl_l1 ttl_l2 config) (FromResponse env key)
    unfolding answer_l2_hit
    answer_l2_hit-Ensures v from s h =
        let (sound, new) = refreshed_or_cached-Ensures v from s.world h.second in
        let (kept, same) =
          store_l1-Ensures env value is_key laws own key _ ttl_l1 config new _
            (in_world-HoldsFrom env value is_key laws own _ s h sound) in
        (kept, λ good. new)

    serve_l1_miss-Ensures :
        (rounds : ℕ)
        → Ensures Holds (serve_l1_miss env rounds key ttl_l1 ttl_l2 config) (FromAnswer env key)
    unfolding serve_l1_miss
    serve_l1_miss-Ensures rounds s h =
        let (sound, from) = get_l2-Ensures env value is_key laws key cached s.world h.second in
        option-Ensures Holds (FromAnswer env key) (get_l2 floats clock redis codec key s.world).0 _
          _
          (λ missed.
            if-Ensures Holds (FromAnswer env key) config.single_flight_enabled _ _
              (λ single.
                handle_backend_single_flight-Ensures env value is_key laws own key cached ttl_l1
                  ttl_l2 config rounds)
              (λ normal.
                handle_backend_normally-Ensures env value is_key laws own key cached ttl_l1 ttl_l2
                  config rounds))
          (λ v hit t i.
            let (kept, answer) = answer_l2_hit-Ensures v (from v hit) t i in
            (kept, λ r same. subst (FromResponse env key) (some_injective same) answer))
          (record s { world = (get_l2 floats clock redis codec key s.world).1 })
          (in_world-HoldsFrom env value is_key laws own _ s h sound)

  read_l1-Ensures : (key : String) → Ensures Holds (read_l1 env key) (FromOption env key)
  unfolding read_l1
  read_l1-Ensures key s h =
      let (now, w) = clock.now s.world in
      let (linked, first, answer) = get_l1-AllFrom (IsFrom env) now key s.l1 h.linked h.first in
      (
        record {
          linked = linked;
          first = first;
          second = Quiet-Keeping env value is_key laws clock.now laws.now s.world h.second;
        },
        answer,
      )

  serve_with-Ensures :
      (rounds : ℕ) (key : String) (config : GatewayConfig Float)
      → is_key key ≡ true
      → Ensures Holds (serve_with env rounds key config) (FromAnswer env key)
  unfolding serve_with
  serve_with-Ensures rounds key config cached s h =
      let (ttl_l1, ttl_l2, factor) = effective_cache_ttls ⦃o = floats⦄ config s.controller in
      let (kept, from) = read_l1-Ensures key s h in
      let (found, t) = read_l1 env key s in
      option-post Holds (FromAnswer env key) found
        (serve_l1_miss env rounds key ttl_l1 ttl_l2 config t)
        (λ v. (some (record { status = pos 200; body = v.value }), t))
        (λ missed. serve_l1_miss-Ensures key cached ttl_l1 ttl_l2 config rounds t kept)
        (λ v hit.
          (kept, λ r same. subst (FromResponse env key) (some_injective same) (λ good. from v hit)))

  adopt_config-HoldsFrom :
      (config : GatewayConfig Float) (version : ℤ) (s : Server W Float)
      → Holds s
      → Holds (adopt_config env config version s)
  unfolding adopt_config
  adopt_config-HoldsFrom config version s h =
      elim (Bool-cases (same_version version s.config_version)) [
        | inl old ↦ rw old h
        | inr new ↦ rw new (record {
          linked = clear_l1-IsLinked s.l1;
          first = cleared_l1-AllFrom (IsFrom env) s.l1;
          second = h.second;
        })
      ]

  get_config-Keeping :
      (config_codec : Codec (GatewayConfig Float)) (parse_int : String → Option ℤ)
      → Keeping SoundHere (get_config ⦃f = floats⦄ redis config_codec parse_int)
  unfolding get_config
  get_config-Keeping config_codec parse_int w h =
      let keys = gateway_config_key ∷ gateway_config_version_key ∷ [] in
      reply-Keeping SoundHere (redis.mget keys w).0 _ _ (λ e s g. g) (λ values s g. g)
        (redis.mget keys w).1
        (Quiet-Keeping env value is_key laws (redis.mget keys) (laws.mget keys) w h)

  current_gateway_config-Keeping :
      (config_codec : Codec (GatewayConfig Float)) (parse_int : String → Option ℤ)
      → Keeping Holds (current_gateway_config env config_codec parse_int)
  unfolding current_gateway_config
  current_gateway_config-Keeping config_codec parse_int s h =
      let (reply, w) = get_config ⦃f = floats⦄ redis config_codec parse_int s.world in
      let kept =
        in_world-HoldsFrom env value is_key laws own w s h
          (get_config-Keeping config_codec parse_int s.world h.second) in
      reply-kept Holds reply _ _ (λ e. kept)
        (λ x read. adopt_config-HoldsFrom x.0 x.1 (record s { world = w }) kept)

  -- With a Redis whose commands write nothing but what they are given and may fail, and a codec
  -- that keeps the bytes of a value, where the keys of requests are none of the gateways' own
  -- keys: if the first level is linked, each of its entries is the body of an answer of the
  -- backend to a request for the entry's key with a status from 200 to 299, and so is each value
  -- that is stored in Redis under the key of a request, then the same holds after a request for
  -- such a key, whichever of the switches are on, and the body of its answer, if there is one with
  -- a status from 200 to 299, is that of an answer of the backend to a request for this key with
  -- such a status.
  pub serve_http-Ensures :
      (config_codec : Codec (GatewayConfig Float)) (parse_int : String → Option ℤ) (rounds : ℕ)
      (key : String)
      → is_key key ≡ true
      → Ensures Holds (serve_http env config_codec parse_int rounds key) (FromAnswer env key)
  unfolding serve_http
  serve_http-Ensures config_codec parse_int rounds key cached s h =
      reply-Ensures Holds (FromAnswer env key)
        (current_gateway_config env config_codec parse_int s).0 _ _
        (λ e t i. (
          i,
          λ r same.
              subst (FromResponse env key) (some_injective same)
                (λ good. absurd (cc (failed_503, good))),
        ))
        (λ config read. serve_with-Ensures rounds key config cached)
        (current_gateway_config env config_codec parse_int s).1
        (current_gateway_config-Keeping config_codec parse_int s h)
