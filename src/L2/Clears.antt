-- ===== src/L2/Clears.antt =====
-- `clearL2` of gateway/l2_cache.go after any sequence of calls by any gateways, while values expire.
use distributed_caching.Base.{
  ◌≡◌, ◌⊎◌, refl, Bool, true, false, String, [], none, string_keys, eq_iff, arith, inl, inr,
}
use distributed_caching.Base.Int.{ℤ}
use distributed_caching.Cache.{KeyValue, L2CacheValue}
use distributed_caching.Floats.{Floats}
use distributed_caching.L2.{l2_lru_key, get_l2, set_l2, clear_l2}
use distributed_caching.L2.Calls.{set_l2-Tracks, get_l2-Tracks, clear_l2-value}
use distributed_caching.L2.Tracked.{Tracks}
use distributed_caching.L2.Working.{View, Works}
use distributed_caching.Outside.{◌>>=◌, ok, Clock, Redis, Codec}
use distributed_caching.Time.{Duration}

module _ {W Float : Type 0} (f : Floats Float) (clock : Clock W) (redis : Redis W Float)
    (codec : Codec L2CacheValue) (view : View W Float) (is_key : String → Bool) where
  open view use {value, members}

  -- Calls on keys of the cache; in between other keys are written, and values of the cache expire.
  pub data L2Step (w : W) : W → Type 0 where
    reads : (k : String) → is_key k ≡ true → L2Step w (get_l2 f clock redis codec k w).1
    stores :
        (k : String) (v : KeyValue) (ttl : Duration) (max : ℤ)
        → is_key k ≡ true
        → L2Step w (set_l2 f clock redis codec k v ttl max w).1
    clears : L2Step w (clear_l2 f clock redis codec w).1
    elapses :
        (w' : W)
        → members w' l2_lru_key ≡ members w l2_lru_key
        → ((j : String) → is_key j ≡ true → (value w' j ≡ value w j) ⊎ (value w' j ≡ none))
        → L2Step w w'

  pub data L2Reach : W → Type 0 where
    start :
        (w : W)
        → members w l2_lru_key ≡ []
        → ((j : String) → is_key j ≡ true → value w j ≡ none)
        → L2Reach w
    next : {w w' : W} → L2Reach w → L2Step w w' → L2Reach w'

  module _ (works : Works clock redis view) (order_apart : is_key l2_lru_key ≡ false) where
    abbrev TracksHere : W → Type 0
    TracksHere = Tracks clock redis view works is_key order_apart []

    -- Nothing of the cache is left.
    pub clear_l2-absent :
        (w : W) (j : String)
        → is_key j ≡ true
        → TracksHere w
        → value (clear_l2 f clock redis codec w).1 j ≡ none
    clear_l2-absent w j cached h =
        let (reply, emptied, after) =
          clear_l2-value f clock redis codec view works is_key order_apart w in
        ground (arith, after j, eq_iff l2_lru_key j, order_apart, h.tracked j cached)

    clear_l2-Tracks : (w : W) → TracksHere w → TracksHere (clear_l2 f clock redis codec w).1
    clear_l2-Tracks w h =
        let (reply, emptied, after) =
          clear_l2-value f clock redis codec view works is_key order_apart w in
        record {
          tracked = λ j cached. rw (clear_l2-absent w j cached h) refl;
          apart = rw emptied refl;
          rest_apart = refl;
        }

    elapse-Tracks :
        (w w' : W)
        → members w' l2_lru_key ≡ members w l2_lru_key
        → ((j : String) → is_key j ≡ true → (value w' j ≡ value w j) ⊎ (value w' j ≡ none))
        → TracksHere w
        → TracksHere w'
    elapse-Tracks w w' same lost h = record {
      tracked = λ j cached. elim (lost j cached) [
        | inl kept ↦ rw (kept, same) (h.tracked j cached)
        | inr gone ↦ rw gone refl
      ];
      apart = rw same h.apart;
      rest_apart = refl;
    }

    pub L2Reach-Tracks : {w : W} → L2Reach w → TracksHere w
    L2Reach-Tracks (start w empty none_yet) = record {
      tracked = λ j cached. rw (none_yet j cached) refl;
      apart = rw empty refl;
      rest_apart = refl;
    }
    L2Reach-Tracks (next r (reads k cached)) =
        get_l2-Tracks f clock redis codec view works is_key order_apart k _ cached
          (L2Reach-Tracks r)
    L2Reach-Tracks (next r (stores k v ttl max cached)) =
        set_l2-Tracks f clock redis codec view works is_key order_apart k v ttl max _ cached
          (L2Reach-Tracks r)
    L2Reach-Tracks (next r clears) = clear_l2-Tracks _ (L2Reach-Tracks r)
    L2Reach-Tracks (next r (elapses w' same lost)) = elapse-Tracks _ w' same lost (L2Reach-Tracks r)

    pub get_l2-absent :
        (key : String) (w : W) → value w key ≡ none → (get_l2 f clock redis codec key w).0 ≡ none
    unfolding get_l2
    get_l2-absent key w gone = rw (works.get key w, ◌>>=◌, get_l2) (rw (gone, ◌>>=◌) refl)

    -- In a Redis that works, after any sequence of calls of getL2, setL2 and clearL2 on keys other
    -- than the order's, from an empty second level and while values expire and other keys are
    -- written, clearL2 succeeds, empties the order, and getL2 of every such key then misses.
    pub clear_l2-get_l2 :
        {w : W}
        → L2Reach w
        → ((clear_l2 f clock redis codec w).0 ≡ ok tt)
          × (members (clear_l2 f clock redis codec w).1 l2_lru_key ≡ [])
          × ((key : String)
              → is_key key ≡ true
              → (get_l2 f clock redis codec key (clear_l2 f clock redis codec w).1).0 ≡ none)
    clear_l2-get_l2 {w} r =
        let (reply, emptied, after) =
          clear_l2-value f clock redis codec view works is_key order_apart w in
        (
          reply,
          emptied,
          λ key cached. get_l2-absent key _ (clear_l2-absent w key cached (L2Reach-Tracks r)),
        )
