-- ===== src/Cache.antt =====
-- gateway/cache_types.go: what the two cache levels store. A `[]byte` is the list of its bytes.
use distributed_caching.Base.{ℕ, List, String}
use distributed_caching.Base.Int.{ℤ}
use distributed_caching.Time.{Time, Duration}

abbrev pub Bytes : Type 0
Bytes = List ℕ

pub record KeyValue : Type 0 where
  pub value : Bytes
  pub l1_expiration : Time
  pub l2_expiration : Time
  pub recompute_duration : Duration

pub record L2CacheValue : Type 0 where
  pub value : Bytes
  pub recompute_duration_ms : ℤ
  pub expires_at_unix_ms : ℤ

pub record CacheEntry : Type 0 where
  pub key : String
  pub value : KeyValue
