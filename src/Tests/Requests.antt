-- ===== src/Tests/Requests.antt =====
-- One request of a gateway, with a backend that answers and with one that fails.
use distributed_caching.Base.{
  ℕ, suc, ◌-◌, leb, ◌≡◌, refl, false, [], ◌∷◌, none, some, arith, if◌then◌else◌,
}
use distributed_caching.Base.Int.{pos, ◌-ℤ◌, ◌+ℤ◌}
use distributed_caching.Cache.{KeyValue}
use distributed_caching.Fetch.{
  Env, Fetched, fetch_from_backend, classify_recorded, recorded_of, record_backend_call_for_faf,
  faf_refresh_marker_key,
}
use distributed_caching.Gateway.{store_answer, store_l1, handle_backend_normally, fetch}
use distributed_caching.Gateway.Stored.{handle_backend_normally-good}
use distributed_caching.L1.{get_l1, is_expired}
use distributed_caching.Lock.{fetch_with_distributed_lock, is_success}
use distributed_caching.Lock.Rounds.{Deadline, fetch_with_distributed_lock-total}
use distributed_caching.L2.{set_l2, track_l2, score_now}
use distributed_caching.Outside.{ok}
use distributed_caching.Tests.Store.{World, store}
use distributed_caching.Tests.Cases.{usual_config}
use distributed_caching.Tests.Server.{answers, server, world, empty-IsLinked}
use distributed_caching.Time.{sub}

abbrev fetched : ℕ → Fetched
fetched code = record {
  value = record {
    value = 104 ∷ [];
    l1_expiration = pos 0;
    l2_expiration = pos 0;
    recompute_duration = pos 1;
  };
  status_code = pos code;
  err = none;
}

fetch_works :
    (fetch (answers 200) 3 "/key" (pos 20) usual_config server.world).0 ≡ some (fetched 200)
unfolding fetch fetch_from_backend classify_recorded recorded_of sub ◌-ℤ◌
    record_backend_call_for_faf faf_refresh_marker_key
fetch_works = refl

handle_backend_normally-good_example :
    (v : KeyValue) × ((get_l1
        (pos 9)
        "/key"
        (handle_backend_normally
          (answers 200)
          3
          "/key"
          (pos 10)
          (pos 20)
          usual_config
          server).1.l1).0
      ≡ some v)
    × ((handle_backend_normally (answers 200) 3 "/key" (pos 10) (pos 20) usual_config server).0
        ≡ some (record { status = pos 200; body = v.value }))
unfolding is_success is_expired store_answer store_l1 ◌+ℤ◌ set_l2 track_l2 score_now fetch
    fetch_from_backend classify_recorded recorded_of record_backend_call_for_faf
    faf_refresh_marker_key
handle_backend_normally-good_example =
    handle_backend_normally-good (answers 200) "/key" (pos 10) (pos 20) usual_config 3 server
      (fetched 200) fetch_works (pos 9) empty-IsLinked (omega arith) refl refl

-- A lock that another gateway holds on to: the wait ends when the clock is at eight.
abbrev busy : Env World ℕ
busy = record (answers 200) {
  redis = record store {
    get = λ k w. (ok none, w);
    set_nx = λ k t ttl w. (ok false, w);
    zrem = λ z k w. (ok (pos 0), w);
    del = λ ks w. (ok (pos 0), w);
    key_exists = λ k w. (ok (pos 1), w);
  };
  backend = record (answers 200).backend {
    poll = λ d w.
        if leb 8 w.clock then (some "deadline", w) else (none, record w { clock = suc w.clock });
  };
}

busy-Deadline : Deadline busy
busy-Deadline = record {
  left = λ w. 8 - w.clock;
  now = λ w. omega arith;
  token = λ w. omega arith;
  get = λ k w. omega arith;
  set_nx = λ k t ttl w. omega arith;
  del = λ ks w. omega arith;
  zadd = λ z x k w. omega arith;
  zrem = λ z k w. omega arith;
  key_exists = λ k w. omega arith;
  gone = λ k w none_left. cc;
  waited = λ d w fired. ground arith;
}

fetch_with_distributed_lock-total_example :
    (r : Fetched) × ((fetch_with_distributed_lock busy 4 "/key" (pos 20) usual_config world).0
      ≡ some r)
unfolding busy-Deadline
fetch_with_distributed_lock-total_example =
    fetch_with_distributed_lock-total busy busy-Deadline "/key" (pos 20) usual_config 4 world
      (omega arith)
