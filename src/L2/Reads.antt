-- ===== src/L2/Reads.antt =====
-- `setL2` and then `getL2` of gateway/l2_cache.go, in a Redis that works.
use distributed_caching.Base.{
  ℕ, ◌≤◌, ◌<◌, ◌≡◌, ◌≢◌, refl, ◌∙◌, true, false, String, some, length, All, string_keys, eq_iff,
  arith,
}
use distributed_caching.Base.Int.{pos, leb_ℤ}
use distributed_caching.Cache.{KeyValue, L2CacheValue}
use distributed_caching.Floats.{Floats}
use distributed_caching.L2.{l2_lru_key, to_l2, from_l2, score_now, get_l2, set_l2, track_l2}
use distributed_caching.L2.Working.{View, Works}
use distributed_caching.L2.Stores.{scored, score, added, track_l2-bound, track_l2-keeps}
use distributed_caching.Outside.{◌>>=◌, Clock, Redis, Codec, RoundTrips}
use distributed_caching.Time.{Duration}

module _ {W Float : Type 0} (f : Floats Float) (clock : Clock W) (redis : Redis W Float)
    (codec : Codec L2CacheValue) (view : View W Float) (works : Works clock redis view) where
  open view use {value, members, is_top}

  get_l2-value :
      (key text : String) (cached : L2CacheValue) (w : W)
      → value w key ≡ some text
      → codec.decode text ≡ some cached
      → (get_l2 f clock redis codec key w).0 ≡ some (from_l2 cached)
  unfolding get_l2
  get_l2-value key text cached w h d =
      rw (works.get key w, ◌>>=◌, get_l2) (rw (h, ◌>>=◌) (rw (d, ◌>>=◌) refl))

  module _ (key : String) (v : KeyValue) (ttl : Duration) (max : ℕ) (w : W)
      (trip : RoundTrips codec (to_l2 v)) (left : 0 < max) where
    -- The world after the `SET` of `setL2`.
    abbrev pub written : W
    written = (redis.set key trip.text ttl w).1

    set_l2-track :
        set_l2 f clock redis codec key v ttl (pos max) w
        ≡ track_l2 f clock redis codec key (pos max) written
    unfolding set_l2
    set_l2-track =
        let on : leb_ℤ (pos max) (pos 0) ≡ false = ground arith in
        rw (on, trip.written, set_l2) (rw (works.set_reply key trip.text ttl w, ◌>>=◌) refl)

    written_value : value (added f clock redis codec view works key written) key ≡ some trip.text
    unfolding score_now
    written_value =
        works.zadd_value _ _ _ _ key
        ∙ works.now_value written key
        ∙ ground (arith, works.set_value key trip.text ttl w key, eq_iff key key)

    module _
        (top : is_top
            (scored f clock redis codec view works written)
            l2_lru_key
            (score f clock redis codec view works written)
          ≡ true) where
      -- In a Redis that works, with a limit above zero, a codec that round-trips the value, a
      -- score at the top of the order, and an order that does not hold its own key, the order
      -- holds at most the limit of keys after setL2.
      pub set_l2-bound :
          All
            (λ k. k ≢ l2_lru_key)
            (members (scored f clock redis codec view works written) l2_lru_key)
          → length (members (set_l2 f clock redis codec key v ttl (pos max) w).1 l2_lru_key) ≤ max
      set_l2-bound apart =
          rw set_l2-track
            (track_l2-bound f clock redis codec view works key written top max left apart)

      -- In a Redis that works, with a limit above zero, a codec that round-trips the value, and a
      -- score that is at the top of the order, getL2 after setL2 of the same key finds the value
      -- as milliseconds keep it, whatever the write evicts.
      pub get_l2-set_l2 :
          (get_l2 f clock redis codec key (set_l2 f clock redis codec key v ttl (pos max) w).1).0
          ≡ some (from_l2 (to_l2 v))
      get_l2-set_l2 =
          get_l2-value key trip.text (to_l2 v) _
            (rw set_l2-track (
              track_l2-keeps f clock redis codec view works key written top max left
              ∙ written_value))
            trip.read_back
