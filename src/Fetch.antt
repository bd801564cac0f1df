-- ===== src/Fetch.antt =====
-- gateway/backend_fetcher.go and gateway/faf.go: one call of the backend through the reverse proxy,
-- and the marker by which calls for one logical refresh are counted once.
use Prim.Native.String.{◌++◌}
use distributed_caching.Base.{String, Option, none, some, [], ◌∷◌}
use distributed_caching.Base.Int.{ℤ, pos, ◌+ℤ◌, wrap64}
use distributed_caching.Cache.{Bytes, KeyValue, L2CacheValue}
use distributed_caching.Floats.{Floats}
use distributed_caching.Outside.{Io, pure, ◌>>=◌, ◌>>◌, Reply, Clock, Redis, Codec}
use distributed_caching.Time.{Duration, zero_time, sub, of_units, millisecond, second}

-- What the recorder and the error holder have after `proxy.ServeHTTP`.
pub record Recorded : Type 0 where
  pub body : Bytes
  pub code : ℤ
  pub err : Option String

-- What the reverse proxy comes to: the response of the backend, or an error, which it hands to its
-- `ErrorHandler`.
pub data Proxied : Type 0 where
  responded : Bytes → ℤ → Proxied
  failed_with : String → Proxied

-- The reverse proxy with a time limit, the error of the limited context after it, the SHA-256 of a
-- key in hexadecimal, the random token, and the random source of the early refresh.
pub record Backend (W Float : Type 0) : Type 0 where
  pub serve : String → Duration → Io W Proxied
  pub context_err : Io W (Option String)
  pub hash : String → String
  pub token : Io W (Reply String)
  pub random : Io W Float
  pub log : Float → Float
  pub seconds : Duration → Float
  pub smallest_nonzero : Float
  -- `select` between the timer and the end of the waiting context, which it reports.
  pub poll : Duration → Io W (Option String)

pub record Fetched : Type 0 where
  pub value : KeyValue
  pub status_code : ℤ
  pub err : Option String

-- What a gateway needs of the outside.
pub record Env (W Float : Type 0) : Type 0 where
  pub floats : Floats Float
  pub clock : Clock W
  pub redis : Redis W Float
  pub codec : Codec L2CacheValue
  pub backend : Backend W Float

-- The text "Backend unavailable" and the line end that `http.Error` adds.
abbrev pub backend_unavailable : Bytes
backend_unavailable =
    66 ∷ 97 ∷ 99 ∷ 107 ∷ 101 ∷ 110 ∷ 100 ∷ 32 ∷ 117 ∷ 110 ∷ 97 ∷ 118 ∷ 97 ∷ 105 ∷ 108 ∷ 97 ∷ 98
    ∷ 108 ∷ 101 ∷ 10 ∷ []

-- The `ErrorHandler` that `NewHandler` sets, on a fresh recorder and holder.
unfoldable pub error_handler : String → Recorded
error_handler e = record { body = backend_unavailable; code = pos 502; err = some e }

-- `proxy.ServeHTTP` with the recorder.
unfoldable pub recorded_of : Proxied → Recorded
recorded_of (responded body code) = record { body = body; code = code; err = none }
recorded_of (failed_with e) = error_handler e

module _ {W Float : Type 0} (env : Env W Float) where
  open env use {clock, redis, backend}

  unfoldable pub faf_refresh_marker_key : String → String
  faf_refresh_marker_key cache_key = "gateway:faf:refresh:" ++ backend.hash cache_key

  -- The reply decides on a metric only.
  unfoldable pub record_backend_call_for_faf : String → Duration → Io W (Unit {0})
  record_backend_call_for_faf cache_key backend_timeout = do
    redis.set_nx (faf_refresh_marker_key cache_key) "1"
        (wrap64 (backend_timeout +ℤ of_units (pos 2) second))
    pure tt

  -- The error of the proxy comes first, then that of the context.
  unfoldable pub classify_recorded : KeyValue → Recorded → Io W Fetched
  classify_recorded result r = elim r.err [
    | some e ↦ pure (record { value = result; status_code = r.code; err = some e })
    | none ↦ do
      ended ← backend.context_err
      elim ended [
        | some e ↦ pure (record { value = result; status_code = pos 504; err = some e })
        | none ↦ pure (record { value = result; status_code = r.code; err = none })
      ]
  ]

  unfoldable pub fetch_from_backend : String → ℤ → Io W Fetched
  fetch_from_backend key backend_timeout_ms = do
    backend_start ← clock.now
    let timeout = of_units backend_timeout_ms millisecond
    record_backend_call_for_faf key timeout
    proxied ← backend.serve key timeout
    let recorded = recorded_of proxied
    backend_end ← clock.now
    classify_recorded
        (record {
          value = recorded.body;
          l1_expiration = zero_time;
          l2_expiration = zero_time;
          recompute_duration = sub backend_end backend_start;
        })
        recorded
