-- ===== src/L2.antt =====
-- gateway/l2_cache.go: the shared cache in Redis, with a sorted set of its keys by the time of their
-- last use.
pub mod Working
pub mod Stores
pub mod Reads
pub mod Precision
pub mod Tracked
pub mod Calls
pub mod Clears
use distributed_caching.Base.{ℕ, Bool, String, List, [], ◌∷◌, Option, none, some, if◌then◌else◌}
use distributed_caching.Base.Int.{ℤ, pos, leb_ℤ, ltb_ℤ, ◌-ℤ◌, wrap64}
use distributed_caching.Cache.{KeyValue, L2CacheValue}
use distributed_caching.Floats.{Floats}
use distributed_caching.Outside.{Io, pure, ◌>>=◌, ◌>>◌, Reply, ok, err, Clock, Redis, Codec}
use distributed_caching.Time.{
  Time, Duration, zero_time, unix_epoch, of_units, millisecond, milliseconds, unix_milli,
  of_unix_milli,
}

abbrev pub l2_lru_key : String
l2_lru_key = "gateway:l2:lru"

-- What `setL2` writes of a value, and what `getL2` makes of it.
unfoldable pub to_l2 : KeyValue → L2CacheValue
to_l2 value = record {
  value = value.value;
  recompute_duration_ms = milliseconds value.recompute_duration;
  expires_at_unix_ms = unix_milli value.l2_expiration;
}

unfoldable pub from_l2 : L2CacheValue → KeyValue
from_l2 cached = record {
  value = cached.value;
  l1_expiration = zero_time;
  l2_expiration = of_unix_milli cached.expires_at_unix_ms;
  recompute_duration = of_units cached.recompute_duration_ms millisecond;
}

module _ {W Float : Type 0} (f : Floats Float) (clock : Clock W) (redis : Redis W Float)
    (codec : Codec L2CacheValue) where
  -- `float64(time.Now().UnixNano())`
  unfoldable pub score_now : Io W Float
  score_now = do now ← clock.now; pure (f.of_int (wrap64 (now -ℤ unix_epoch)))

  unfoldable pub get_l2 : String → Io W (Option KeyValue)
  get_l2 key = do
    reply ← redis.get key
    elim reply [
      | err _ ↦ pure none
      | ok none ↦ do redis.zrem l2_lru_key key; pure none
      | ok (some text) ↦ elim (codec.decode text) [
        | none ↦ do redis.del (key ∷ []); redis.zrem l2_lru_key key; pure none
        | some cached ↦ do
          score ← score_now
          redis.zadd l2_lru_key score key
          pure (some (from_l2 cached))
      ]
    ]

  unfoldable pub delete_each : List String → Io W (Unit {0})
  delete_each [] = pure tt
  delete_each (key ∷ keys) = do redis.del (key ∷ []); delete_each keys

  unfoldable pub remove_l2_lru : ℤ → Io W (Unit {0})
  remove_l2_lru count = do
    reply ← redis.zpopmin l2_lru_key count
    elim reply [ err _ ↦ pure tt | ok elements ↦ delete_each elements ]

  -- The end of `setL2`: the key enters the order, and the surplus leaves.
  unfoldable pub track_l2 : String → ℤ → Io W (Unit {0})
  track_l2 key max_entries = do
    score ← score_now
    added ← redis.zadd l2_lru_key score key
    elim added [
      | err _ ↦ pure tt
      | ok _ ↦ do
        reply ← redis.zcard l2_lru_key
        elim reply [
          | err _ ↦ pure tt
          | ok count ↦
              if ltb_ℤ max_entries count then remove_l2_lru (count -ℤ max_entries) else pure tt
        ]
    ]

  unfoldable pub set_l2 : String → KeyValue → Duration → ℤ → Io W (Unit {0})
  set_l2 key value ttl max_entries =
      if leb_ℤ max_entries (pos 0) then pure tt else elim (codec.encode (to_l2 value)) [
        | err _ ↦ pure tt
        | ok text ↦ do
          reply ← redis.set key text ttl
          elim reply [ err _ ↦ pure tt | ok _ ↦ track_l2 key max_entries ]
      ]

  unfoldable pub clear_l2 : Io W (Reply (Unit {0}))
  clear_l2 = do
    reply ← redis.zrange_all l2_lru_key
    elim reply [
      | err e ↦ pure (err e)
      | ok keys ↦ do
        deleted ← elim keys [ [] ↦ pure (ok (pos 0)) | key ∷ rest ↦ redis.del (key ∷ rest) ]
        elim deleted [
          | err e ↦ pure (err e)
          | ok _ ↦ do
            last ← redis.del (l2_lru_key ∷ [])
            elim last [ err e ↦ pure (err e) | ok _ ↦ pure (ok tt) ]
        ]
    ]
