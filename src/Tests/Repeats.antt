-- ===== src/Tests/Repeats.antt =====
-- Two requests for one key to a gateway without single flight.
use distributed_caching.Base.{
  ℕ, ◌≡◌, refl, false, [], ◌∷◌, none, some, ◌==◌, string_keys, if◌then◌else◌, arith, lookup,
}
use distributed_caching.Base.Int.{pos, ◌-ℤ◌, ◌+ℤ◌, ◌*ℤ◌, wrap64}
use distributed_caching.Cache.{KeyValue}
use distributed_caching.Config.{GatewayConfig, apply_adaptive_ttl_defaults}
use distributed_caching.ConfigStore.{
  gateway_config_key, gateway_config_version_key, get_config, read_values, read_config,
}
use distributed_caching.Fetch.{
  fetch_from_backend, Fetched, classify_recorded, recorded_of, record_backend_call_for_faf,
  faf_refresh_marker_key,
}
use distributed_caching.Gateway.{
  Server, current_gateway_config, adopt_config, serve_http, same_version, read_l1, fetch,
  serve_with, serve_l1_miss, handle_backend_normally, answer_result, answer_fetched, store_answer,
  store_l1,
}
use distributed_caching.L1.{get_l1, clear_l1, set_l1, is_expired}
use distributed_caching.L2.{get_l2, set_l2, track_l2, score_now, to_l2}
use distributed_caching.Lock.{is_success}
use distributed_caching.Adaptive.{effective_cache_ttls, clamp_adaptive_ttl_factor, snapshot}
use distributed_caching.Time.{sub, of_units}
use distributed_caching.Gateway.Repeat.{FirstRequest, second, serve_http_repeated}
use distributed_caching.Tests.Cases.{usual_config}
use distributed_caching.Tests.Server.{only, world, answers, server, empty-IsLinked}
use distributed_caching.Tests.Store.{World, ticking, parse_ones}

abbrev plain : GatewayConfig ℕ
plain = record usual_config { single_flight_enabled = false }

abbrev ready : World
ready = record world {
  strings = λ k.
      if k == gateway_config_key
      then some "json"
      else if k == gateway_config_version_key
      then some "1"
      else none;
}

abbrev waiting : Server World ℕ
waiting = record server { gateway_config = plain; world = ready }

abbrev fetched : Fetched
fetched = record {
  value = record {
    value = 104 ∷ [];
    l1_expiration = pos 0;
    l2_expiration = pos 0;
    recompute_duration = pos 1;
  };
  status_code = pos 200;
  err = none;
}

first : FirstRequest (answers 200) (only plain) parse_ones 3 "/key" waiting plain fetched
unfolding current_gateway_config get_config read_values read_config parse_ones
    apply_adaptive_ttl_defaults adopt_config same_version read_l1 get_l1 clear_l1 lookup get_l2
    fetch fetch_from_backend classify_recorded recorded_of record_backend_call_for_faf
    faf_refresh_marker_key sub ◌-ℤ◌ ◌+ℤ◌ ◌*ℤ◌ wrap64 is_success
first = record {
  in_use = refl;
  single = refl;
  limit = omega arith;
  absent = refl;
  away = refl;
  answered = refl;
  good = refl;
}

serve_http_repeated_example :
    (v : KeyValue) × ((serve_http (answers 200) (only plain) parse_ones 3 "/key" waiting).0
      ≡ some (record { status = pos 200; body = v.value }))
    × ((serve_http (answers 200) (only plain) parse_ones 3 "/key" (
          second
            (answers 200)
            (only plain)
            parse_ones
            3
            "/key"
            waiting
            plain
            fetched
            empty-IsLinked
            first
            ready)).0
        ≡ some (record { status = pos 200; body = v.value }))
    × ((serve_http (answers 200) (only plain) parse_ones 3 "/key" (
          second
            (answers 200)
            (only plain)
            parse_ones
            3
            "/key"
            waiting
            plain
            fetched
            empty-IsLinked
            first
            ready)).1.world
        ≡ (ticking.now ready).1)
unfolding current_gateway_config get_config read_values read_config parse_ones
    apply_adaptive_ttl_defaults adopt_config same_version read_l1 get_l1 clear_l1 lookup get_l2
    fetch fetch_from_backend classify_recorded recorded_of record_backend_call_for_faf
    faf_refresh_marker_key sub ◌-ℤ◌ ◌+ℤ◌ ◌*ℤ◌ wrap64 is_success serve_http serve_with serve_l1_miss
    handle_backend_normally answer_result answer_fetched store_answer store_l1 set_l1 set_l2
    track_l2 score_now to_l2 effective_cache_ttls clamp_adaptive_ttl_factor snapshot of_units
    is_expired
serve_http_repeated_example =
    serve_http_repeated (answers 200) (only plain) parse_ones 3 "/key" waiting plain fetched
      empty-IsLinked first ready plain (pos 1) refl refl refl
