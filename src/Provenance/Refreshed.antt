-- ===== src/Provenance/Refreshed.antt =====
-- The refreshes before an expiry, of gateway/early_refresh.go.
use distributed_caching.Base.{◌≡◌, subst, Bool, true, String, Option, string_keys}
use distributed_caching.Base.Int.{pos, leb_ℤ}
use distributed_caching.Cache.{KeyValue}
use distributed_caching.Config.{GatewayConfig}
use distributed_caching.EarlyRefresh.{
  should_early_refresh, write_refreshed, store_refreshed, accept_refreshed,
  try_probabilistic_early_refresh,
}
use distributed_caching.Fetch.{Env, Fetched}
use distributed_caching.Lock.{is_success}
use distributed_caching.Outside.{Io}
use distributed_caching.Outside.Ensuring.{Ensures, bool-Ensures, option-Ensures}
use distributed_caching.Outside.Keeping.{Keeping, if-Keeping}
use distributed_caching.Provenance.{
  IsFrom, IsSound, Quiet, Documented, OwnKeys, FromOption, FromFetched,
}
use distributed_caching.Provenance.Fetches.{fetch_from_backend-Ensures}
use distributed_caching.Provenance.First.{some_injective}
use distributed_caching.Provenance.Second.{Quiet-Keeping, set_l2-Keeping}
use distributed_caching.Time.{Duration, Time, add, sub}

module _ {W Float : Type 0} (env : Env W Float) (value : W → String → Option String)
    (is_key : String → Bool) (laws : Documented env value is_key) (own : OwnKeys env is_key)
    (key : String) (cached : is_key key ≡ true) where
  open env use {floats, clock, redis, codec, backend}

  abbrev SoundHere : W → Type 0
  SoundHere = IsSound env value is_key

  abbrev From : String → Fetched → Type 0
  From = FromFetched env

  quiet : {A : Type 0} (m : Io W A) → Quiet env value is_key m → Keeping SoundHere m
  quiet m q = Quiet-Keeping env value is_key laws m q

  abbrev FromValue : KeyValue → Type 0
  FromValue v = IsFrom env key v.value

  write_refreshed-Ensures :
      (v : KeyValue) (expiration : Time) (ttl : Duration) (config : GatewayConfig Float)
      → FromValue v
      → Ensures SoundHere (write_refreshed env key v expiration ttl config) FromValue
  unfolding write_refreshed
  write_refreshed-Ensures v expiration ttl config from w h =
      (set_l2-Keeping env value is_key laws key _ ttl config.l2_max_entries from w h, from)

  store_refreshed-Ensures :
      (v : KeyValue) (ttl_l2 : Duration) (config : GatewayConfig Float)
      → FromValue v
      → Ensures SoundHere (store_refreshed env key v ttl_l2 config) FromValue
  unfolding store_refreshed
  store_refreshed-Ensures v ttl_l2 config from w h =
      let (now, w1) = clock.now w in
      let h1 = quiet clock.now laws.now w h in
      let (later, w2) = clock.now w1 in
      let left = sub (add now ttl_l2) later in
      bool-Ensures SoundHere FromValue (leb_ℤ left (pos 0))
        (λ s. write_refreshed env key v (add (clock.now s).0 ttl_l2) ttl_l2 config (clock.now s).1)
        (write_refreshed env key v (add now ttl_l2) left config)
        (λ late s g.
          write_refreshed-Ensures v (add (clock.now s).0 ttl_l2) ttl_l2 config from (clock.now s).1
            (quiet clock.now laws.now s g))
        (λ early. write_refreshed-Ensures v (add now ttl_l2) left config from) w2
        (quiet clock.now laws.now w1 h1)

  accept_refreshed-Ensures :
      (f : Fetched) (ttl_l2 : Duration) (config : GatewayConfig Float)
      → From key f
      → Ensures SoundHere (accept_refreshed env key f ttl_l2 config) (FromOption env key)
  unfolding accept_refreshed
  accept_refreshed-Ensures f ttl_l2 config from =
      option-Ensures SoundHere (FromOption env key) f.err _ _
        (λ fine.
          bool-Ensures SoundHere (FromOption env key) (is_success f.status_code) _ _
            (λ good s g.
              let (h1, new) = store_refreshed-Ensures f.value ttl_l2 config (from good).1 s g in
              (h1, λ v same. subst FromValue (some_injective same) new))
            (λ bad s g. (g, λ v none_is. cc)))
        (λ e wrong s g. (g, λ v none_is. cc))

  should_early_refresh-Keeping :
      (v : KeyValue) (beta : Float) (now : Time)
      → Keeping SoundHere (should_early_refresh env v beta now)
  unfolding should_early_refresh
  should_early_refresh-Keeping v beta now =
      if-Keeping SoundHere _ _ _ (λ s g. g) (λ s g. quiet backend.random laws.random s g)

  pub try_probabilistic_early_refresh-Ensures :
      (v : KeyValue) (ttl_l2 : Duration) (config : GatewayConfig Float)
      → Ensures SoundHere
          (try_probabilistic_early_refresh env key v ttl_l2 config)
          (FromOption env key)
  unfolding try_probabilistic_early_refresh
  try_probabilistic_early_refresh-Ensures v ttl_l2 config w h =
      let h1 = quiet clock.now laws.now w h in
      let (now, w1) = clock.now w in
      bool-Ensures SoundHere (FromOption env key)
        (should_early_refresh env v config.early_refresh_beta now w1).0 _ _
        (λ due s g.
          let (g1, from) =
            fetch_from_backend-Ensures env value is_key laws own key config.backend_timeout_ms s
              g in
          accept_refreshed-Ensures _ ttl_l2 config from _ g1)
        (λ not_due s g. (g, λ u none_is. cc))
        (should_early_refresh env v config.early_refresh_beta now w1).1
        (should_early_refresh-Keeping v config.early_refresh_beta now w1 h1)
