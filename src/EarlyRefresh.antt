-- ===== src/EarlyRefresh.antt =====
-- gateway/early_refresh.go: a value of the second level may be fetched anew before it expires.
pub mod Due
use distributed_caching.Base.{Bool, true, false, ◌||◌, String, Option, none, some, if◌then◌else◌}
use distributed_caching.Base.Int.{ℤ, pos, leb_ℤ}
use distributed_caching.Cache.{KeyValue}
use distributed_caching.Config.{GatewayConfig}
use distributed_caching.Fetch.{Env, Fetched, fetch_from_backend}
use distributed_caching.L2.{set_l2}
use distributed_caching.Lock.{is_success}
use distributed_caching.Outside.{Io, pure, ◌>>=◌, ◌>>◌}
use distributed_caching.Time.{Time, Duration, add, sub, is_zero, second}

module _ {W Float : Type 0} (env : Env W Float) where
  open env use {floats, clock, redis, codec, backend}

  -- `shouldEarlyRefresh`, without the probability that is only logged.
  unfoldable pub refresh_is_due : KeyValue → Float → Duration → Float → Bool
  refresh_is_due value beta remaining random_value =
      let zero = floats.decimal 0 0 in
      let positive =
        if floats.le random_value zero then backend.smallest_nonzero else random_value in
      let random_gap_seconds =
        floats.mul (floats.mul (backend.seconds value.recompute_duration) beta)
          (floats.neg (backend.log positive)) in
      let random_gap = floats.to_int (floats.mul random_gap_seconds (floats.of_int (pos second))) in
      leb_ℤ remaining random_gap

  unfoldable pub should_early_refresh : KeyValue → Float → Time → Io W Bool
  should_early_refresh value beta now =
      let remaining = sub value.l2_expiration now in
      if floats.le beta (floats.decimal 0 0)
        || (leb_ℤ value.recompute_duration (pos 0)
            || (is_zero value.l2_expiration || leb_ℤ remaining (pos 0)))
      then pure false
      else (do
        random_value ← backend.random
        pure (refresh_is_due value beta remaining random_value))

  -- The refreshed value with its new expiry, as it is written.
  unfoldable pub write_refreshed :
      String → KeyValue → Time → Duration → GatewayConfig Float → Io W KeyValue
  write_refreshed key value expiration redis_ttl config = do
    let dated = record value { l2_expiration = expiration }
    set_l2 floats clock redis codec key dated redis_ttl config.l2_max_entries
    pure dated

  unfoldable pub store_refreshed :
      String → KeyValue → Duration → GatewayConfig Float → Io W KeyValue
  store_refreshed key value ttl_l2 config = do
    now ← clock.now
    later ← clock.now
    elim (leb_ℤ (sub (add now ttl_l2) later) (pos 0)) [
      | false ↦ write_refreshed key value (add now ttl_l2) (sub (add now ttl_l2) later) config
      | true ↦ do again ← clock.now; write_refreshed key value (add again ttl_l2) ttl_l2 config
    ]

  -- What a fetch for an early refresh gives: a new value only if it succeeded.
  unfoldable pub accept_refreshed :
      String → Fetched → Duration → GatewayConfig Float → Io W (Option KeyValue)
  accept_refreshed key fetched ttl_l2 config = elim fetched.err [
    | some _ ↦ pure none
    | none ↦ elim (is_success fetched.status_code) [
      | false ↦ pure none
      | true ↦ do refreshed ← store_refreshed key fetched.value ttl_l2 config; pure (some refreshed)
    ]
  ]

  -- The refreshed value; `none` keeps the cached one.
  unfoldable pub try_probabilistic_early_refresh :
      String → KeyValue → Duration → GatewayConfig Float → Io W (Option KeyValue)
  try_probabilistic_early_refresh key cached_value ttl_l2 config = do
    now ← clock.now
    due ← should_early_refresh cached_value config.early_refresh_beta now
    elim due [
      | false ↦ pure none
      | true ↦ do
        fetched ← fetch_from_backend env key config.backend_timeout_ms
        accept_refreshed key fetched ttl_l2 config
    ]
