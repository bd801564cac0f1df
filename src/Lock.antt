-- ===== src/Lock.antt =====
-- gateway/distributed_lock.go: a lock per key in Redis, so that one gateway fetches while the others
-- wait for the second level.
pub mod Holder
pub mod Rounds
pub mod Gateways
use Prim.Native.String.{◌++◌}
use distributed_caching.Base.{
  ℕ, zero, suc, ◌*◌, Bool, true, false, ◌&&◌, [], ◌==◌, string_keys, String, Option, none, some,
  if◌then◌else◌,
}
use distributed_caching.Base.Int.{ℤ, pos, leb_ℤ, ltb_ℤ, ◌+ℤ◌, wrap64}
use distributed_caching.Cache.{KeyValue}
use distributed_caching.Config.{GatewayConfig}
use distributed_caching.Fetch.{Env, Fetched, fetch_from_backend}
use distributed_caching.L2.{get_l2, set_l2}
use distributed_caching.Outside.{Io, pure, ◌>>=◌, ◌>>◌, Reply, ok, err}
use distributed_caching.Time.{Duration, add, zero_time, of_units, millisecond}

abbrev pub lock_poll_interval : Duration
lock_poll_interval = pos (25 * millisecond)

abbrev pub lock_safety_margin : Duration
lock_safety_margin = pos (2 * millisecond)

-- `statusCode >= 200 && statusCode < 300`
unfoldable pub is_success : ℤ → Bool
is_success code = leb_ℤ (pos 200) code && ltb_ℤ code (pos 300)

-- `KeyValue{}`
abbrev pub no_value : KeyValue
no_value = record {
  value = [];
  l1_expiration = zero_time;
  l2_expiration = zero_time;
  recompute_duration = pos 0;
}

abbrev pub failed : ℕ → String → Fetched
failed code e = record { value = no_value; status_code = pos code; err = some e }

abbrev pub found_value : KeyValue → Fetched
found_value value = record { value = value; status_code = pos 200; err = none }

module _ {W Float : Type 0} (env : Env W Float) where
  open env use {floats, clock, redis, codec, backend}

  unfoldable pub distributed_lock_key : String → String
  distributed_lock_key cache_key = "gateway:lock:" ++ backend.hash cache_key

  unfoldable pub try_acquire_distributed_lock : String → Duration → Io W (Reply (String × Bool))
  try_acquire_distributed_lock lock_key ttl = do
    generated ← backend.token
    elim generated [
      | err e ↦ pure (err e)
      | ok token ↦ do
        reply ← redis.set_nx lock_key token ttl
        elim reply [ err e ↦ pure (err e) | ok acquired ↦ pure (ok (token, acquired)) ]
    ]

  unfoldable pub release_distributed_lock_script : String → String → Io W ℤ
  release_distributed_lock_script lock_key token = do
    stored ← redis.call_get lock_key
    elim stored [
      | none ↦ pure (pos 0)
      | some s ↦ if s == token then redis.call_del lock_key else pure (pos 0)
    ]

  -- The reply is only logged.
  unfoldable pub release_distributed_lock : String → String → Io W (Unit {0})
  release_distributed_lock lock_key token = do
    redis.run_script (release_distributed_lock_script lock_key token)
    pure tt

  -- The body of `fetchAsDistributedLockOwner`, without the deferred release.
  unfoldable pub fetch_as_owner : String → Duration → GatewayConfig Float → Io W Fetched
  fetch_as_owner cache_key ttl_l2 config = do
    cached ← get_l2 floats clock redis codec cache_key
    elim cached [
      | some value ↦ pure (found_value value)
      | none ↦ do
        fetched ← fetch_from_backend env cache_key config.backend_timeout_ms
        elim fetched.err [
          | some _ ↦ pure fetched
          | none ↦
              if is_success fetched.status_code
              then (do
                now ← clock.now
                let value = record fetched.value { l2_expiration = add now ttl_l2 }
                set_l2 floats clock redis codec cache_key value ttl_l2 config.l2_max_entries
                pure (record fetched { value = value }))
              else pure fetched
        ]
    ]

  unfoldable pub fetch_as_distributed_lock_owner :
      String → String → String → Duration → GatewayConfig Float → Io W Fetched
  fetch_as_distributed_lock_owner cache_key lock_key token ttl_l2 config = do
    fetched ← fetch_as_owner cache_key ttl_l2 config
    release_distributed_lock lock_key token
    pure fetched

  -- A round of the loop that did not get the lock: `none` starts another one.
  unfoldable pub wait_for_lock : String → String → Io W (Option Fetched)
  wait_for_lock cache_key lock_key = do
    cached ← get_l2 floats clock redis codec cache_key
    elim cached [
      | some value ↦ pure (some (found_value value))
      | none ↦ do
        exists ← redis.key_exists lock_key
        elim exists [
          | err e ↦ pure (some (failed 503 e))
          | ok n ↦ if leb_ℤ n (pos 0) && leb_ℤ (pos 0) n then pure none else (do
            ended ← backend.poll lock_poll_interval
            elim ended [ none ↦ pure none | some e ↦ pure (some (failed 504 e)) ])
        ]
    ]

  unfoldable pub lock_round : String → Duration → GatewayConfig Float → Io W (Option Fetched)
  lock_round cache_key ttl_l2 config = do
    let lock_key = distributed_lock_key cache_key
    let lock_ttl = wrap64 (of_units config.backend_timeout_ms millisecond +ℤ lock_safety_margin)
    reply ← try_acquire_distributed_lock lock_key lock_ttl
    elim reply [
      | err e ↦ pure (some (failed 503 e))
      | ok (token, true) ↦ do
        fetched ← fetch_as_distributed_lock_owner cache_key lock_key token ttl_l2 config
        pure (some fetched)
      | ok (token, false) ↦ wait_for_lock cache_key lock_key
    ]

  -- The loop, for so many rounds; `none` when they are used up.
  unfoldable pub fetch_with_distributed_lock :
      ℕ → String → Duration → GatewayConfig Float → Io W (Option Fetched)
  fetch_with_distributed_lock zero cache_key ttl_l2 config w = (none, w)
  fetch_with_distributed_lock (suc rounds) cache_key ttl_l2 config w =
      let (result, w') = lock_round cache_key ttl_l2 config w in
      let again = fetch_with_distributed_lock rounds cache_key ttl_l2 config w' in
      elim result [ some fetched ↦ (some fetched, w') | none ↦ again ]
