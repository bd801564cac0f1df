-- ===== src/Provenance.antt =====
-- What it means that a body comes from the backend, for what the two levels of cache hold, in
-- gateway/l1_cache.go and gateway/l2_cache.go, and for what gateway/handler.go answers; and what is
-- relied on of the outside.
pub mod First
pub mod Second
pub mod Fetches
pub mod Locked
pub mod Refreshed
pub mod Answers
pub mod Served
pub mod Several
use distributed_caching.Base.{
  ◌≡◌, ◌⊎◌, true, false, none, some, String, List, [], ◌∷◌, Bool, Option,
}
use distributed_caching.Base.Int.{ℤ, pos}
use distributed_caching.Cache.{Bytes, KeyValue, L2CacheValue}
use distributed_caching.Fetch.{Env, Fetched, responded, faf_refresh_marker_key}
use distributed_caching.Lock.{is_success, distributed_lock_key}
use distributed_caching.Outside.{Io, Reply, ok}
use distributed_caching.SingleFlight.{Response}
use distributed_caching.Time.{Duration}

module _ {W Float : Type 0} (env : Env W Float) where
  open env use {backend}

  -- The bytes are the body of an answer of the backend to a request for the key that is a success.
  pub record IsFrom (key : String) (body : Bytes) : Type 0 where
    pub moment : W
    pub timeout : Duration
    pub code : ℤ
    pub answered : (backend.serve key timeout moment).0 ≡ responded body code
    pub good : is_success code ≡ true

module _ {W Float : Type 0} (env : Env W Float) (value : W → String → Option String)
    (is_key : String → Bool) where
  open env use {clock, redis, codec, backend}

  -- The text of a key of a request decodes to a body that is from the backend.
  pub record IsSound (w : W) : Type 0 where
    pub sound :
        (k t : String) (v : L2CacheValue)
        → is_key k ≡ true
        → value w k ≡ some t
        → codec.decode t ≡ some v
        → IsFrom env k v.value

  -- Nothing new is in Redis; what was there may be gone.
  abbrev pub Quiet : {A : Type 0} → Io W A → Type 0
  Quiet m = (w : W) (k t : String) → value (m w).1 k ≡ some t → value w k ≡ some t

  -- Nothing new but the text at the key.
  abbrev pub Writes : {A : Type 0} → String → String → Io W A → Type 0
  Writes k t m =
      (w : W) (j u : String) → value (m w).1 j ≡ some u → (value w j ≡ some u) ⊎ ((k ≡ j) × (t ≡ u))

  -- What is documented of the commands, which may fail, while texts may expire, and of the codec.
  pub record Documented : Type 0 where
    pub now : Quiet clock.now
    pub get : (k : String) → Quiet (redis.get k)
    pub get_reads : (k t : String) (w : W) → (redis.get k w).0 ≡ ok (some t) → value w k ≡ some t
    pub set : (k t : String) (ttl : Duration) → Writes k t (redis.set k t ttl)
    pub set_nx : (k t : String) (ttl : Duration) → Writes k t (redis.set_nx k t ttl)
    pub del : (ks : List String) → Quiet (redis.del ks)
    pub key_exists : (k : String) → Quiet (redis.key_exists k)
    pub mget : (ks : List String) → Quiet (redis.mget ks)
    pub zadd : (z : String) (x : Float) (k : String) → Quiet (redis.zadd z x k)
    pub zrem : (z k : String) → Quiet (redis.zrem z k)
    pub zcard : (z : String) → Quiet (redis.zcard z)
    pub zpopmin : (z : String) (n : ℤ) → Quiet (redis.zpopmin z n)
    pub script : (p : Io W ℤ) → Quiet p → Quiet (redis.run_script p)
    pub call_get : (k : String) → Quiet (redis.call_get k)
    pub call_del : (k : String) → Quiet (redis.call_del k)
    pub keeps_value :
        (v u : L2CacheValue) (t : String)
        → codec.encode v ≡ ok t
        → codec.decode t ≡ some u
        → u.value ≡ v.value
    pub serve : (key : String) (timeout : Duration) → Quiet (backend.serve key timeout)
    pub context_err : Quiet backend.context_err
    pub token : Quiet backend.token
    pub random : Quiet backend.random
    pub poll : (d : Duration) → Quiet (backend.poll d)

-- The keys of requests are none of the gateways' own.
pub record OwnKeys {W Float : Type 0} (env : Env W Float) (is_key : String → Bool) : Type 0 where
  pub marker : (key : String) → is_key (faf_refresh_marker_key env key) ≡ false
  pub lock : (key : String) → is_key (distributed_lock_key env key) ≡ false

module _ {W Float : Type 0} (env : Env W Float) where
  -- The cached value, where there is one.
  abbrev pub FromOption : String → Option KeyValue → Type 0
  FromOption key o = (v : KeyValue) → o ≡ some v → IsFrom env key v.value

  -- The result of a fetch, where it is a success.
  abbrev pub FromFetched : String → Fetched → Type 0
  FromFetched key f =
      is_success f.status_code ≡ true → (f.err ≡ none) × IsFrom env key f.value.value

  -- A result of the lock's loop, where it is there.
  abbrev pub FromRound : String → Option Fetched → Type 0
  FromRound key o = (f : Fetched) → o ≡ some f → FromFetched key f

  -- A body that is answered with success is from the backend.
  abbrev pub FromResponse : String → Response → Type 0
  FromResponse key r = is_success r.status ≡ true → IsFrom env key r.body

  abbrev pub FromAnswer : String → Option Response → Type 0
  FromAnswer key o = (r : Response) → o ≡ some r → FromResponse key r
