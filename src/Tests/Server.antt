-- ===== src/Tests/Server.antt =====
-- A gateway beside a backend that answers every request with status 200, and one that fails.
use distributed_caching.Base.{ℕ, ◌==◌, string_keys, refl, [], ◌∷◌, none, some, if◌then◌else◌}
use distributed_caching.Base.Int.{pos}
use distributed_caching.Fetch.{Env, responded}
use distributed_caching.Gateway.{Server}
use distributed_caching.L1.{empty, clear_l1}
use distributed_caching.L1.Keeps.{clear_l1-IsLinked}
use distributed_caching.L1.Linked.{IsLinked}
use distributed_caching.L2.{to_l2}
use distributed_caching.Lock.Holder.{LockWorks}
use distributed_caching.Outside.{Codec, ok}
use distributed_caching.SingleFlight.{no_flights}
use distributed_caching.Tests.Cases.{usual_config, controller_at, value_until}
use distributed_caching.Tests.Fixed.{thousandths}
use distributed_caching.Tests.Store.{
  World, ticking, store, store-taken, store-free_reply, store-free_value,
}

abbrev pub only : {A : Type 0} → A → Codec A
only a = record { encode = λ _. ok "json"; decode = λ _. some a }

abbrev pub world : World
world = record {
  strings = λ k. if k == "lock" then some "mine" else none;
  sets = λ z. [];
  clock = 5;
}

abbrev pub answers : ℕ → Env World ℕ
answers code = record {
  floats = thousandths;
  clock = ticking;
  redis = store;
  codec = only (to_l2 (value_until 10));
  backend = record {
    serve = λ key timeout w. (responded (104 ∷ []) (pos code), w);
    context_err = λ w. (none, w);
    hash = λ key. key;
    token = λ w. (ok "token", w);
    random = λ w. (500, w);
    log = λ x. x;
    seconds = λ d. 1000;
    smallest_nonzero = 1;
    poll = λ d w. (some "deadline", w);
  };
}

abbrev pub server : Server World ℕ
server = record {
  l1 = empty;
  gateway_config = usual_config;
  config_version = pos 1;
  controller = controller_at 1000;
  flights = no_flights;
  world = world;
}

pub empty-IsLinked : IsLinked server.l1
unfolding clear_l1
empty-IsLinked = clear_l1-IsLinked empty

pub lock-Works : LockWorks (answers 200) (λ w k. w.strings k)
lock-Works = record {
  set_nx_taken = λ k t s ttl w h. store-taken k t ttl w s h;
  set_nx_reply = λ k t ttl w h. store-free_reply k t ttl w h;
  set_nx_value = λ k t ttl w j h. store-free_value k t ttl w j h;
  token_value = λ w j. refl;
  script = λ p w. refl;
  call_get = λ k w. refl;
  call_del = λ k w j. refl;
}
