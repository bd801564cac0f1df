-- ===== src/L2/Tracked.antt =====
-- Which keys of the second level the order of gateway/l2_cache.go lists, from command to command, in
-- a Redis that works.
use distributed_caching.Base.{
  ℕ, zero, suc, ◌≡◌, ◌≢◌, refl, Bool, true, false, ◌||◌, String, List, [], ◌∷◌, Option, none, some,
  if◌then◌else◌, drop, string_keys, ◌==◌, eq_iff, arith,
}
use distributed_caching.Base.Int.{pos}
use distributed_caching.Cache.{L2CacheValue}
use distributed_caching.Floats.{Floats}
use distributed_caching.L2.{l2_lru_key, delete_each}
use distributed_caching.L2.Working.{View, Works, take_first, remove, listed}
use distributed_caching.Outside.{Clock, Redis, Codec}
use distributed_caching.Time.{Duration}

abbrev pub is_absent : Option String → Bool
is_absent none = true
is_absent (some t) = false

listed-split :
    (j : String) (n : ℕ) (xs : List String)
    → listed j xs ≡ (listed j (drop n xs) || listed j (take_first n xs))
listed-split j zero xs = ground arith
listed-split j (suc n) [] = refl
listed-split j (suc n) (x ∷ xs) = ground (arith, listed-split j n xs)

listed-remove :
    (j k : String) (xs : List String)
    → listed j (remove k xs) ≡ (if k == j then false else listed j xs)
listed-remove j k [] = ground arith
listed-remove j k (x ∷ xs) =
    ground (arith, listed-remove j k xs, eq_iff x k, eq_iff x j, eq_iff k j)

-- The keys of the cache are those of requests, and the order's own key is not one.
module _ {W Float : Type 0} (clock : Clock W) (redis : Redis W Float) (view : View W Float)
    (works : Works clock redis view) (is_key : String → Bool)
    (order_apart : is_key l2_lru_key ≡ false) where
  open view use {value, members}

  -- A key of the cache that has a value is in the order, or is one of those that a call has still to
  -- enter or to delete.
  pub record Tracks (rest : List String) (w : W) : Type 0 where
    pub tracked :
        (j : String)
        → is_key j ≡ true
        → (is_absent (value w j) || listed j (members w l2_lru_key) || listed j rest) ≡ true
    pub apart : listed l2_lru_key (members w l2_lru_key) ≡ false
    pub rest_apart : listed l2_lru_key rest ≡ false

  pub now-Tracks : (rest : List String) (w : W) → Tracks rest w → Tracks rest (clock.now w).1
  now-Tracks rest w h = record {
    tracked = λ j k. rw (works.now_value, works.now_members) (h.tracked j k);
    apart = rw works.now_members h.apart;
    rest_apart = h.rest_apart;
  }

  pub set-Tracks :
      (k t : String) (ttl : Duration) (w : W)
      → is_key k ≡ true
      → Tracks [] w
      → Tracks (k ∷ []) (redis.set k t ttl w).1
  set-Tracks k t ttl w is h =
      let other : k ≢ l2_lru_key = λ e. ground (arith, e, order_apart) in
      record {
        tracked = λ j cached.
            rw (works.set_value, works.set_members k t ttl w l2_lru_key other)
              (ground (arith, h.tracked j cached));
        apart = rw (works.set_members k t ttl w l2_lru_key other) h.apart;
        rest_apart = ground (arith, eq_iff k l2_lru_key);
      }

  pub zadd-Tracks :
      (x : Float) (k : String) (w : W)
      → is_key k ≡ true
      → Tracks (k ∷ []) w
      → Tracks [] (redis.zadd l2_lru_key x k w).1
  zadd-Tracks x k w is h = record {
    tracked =
        λ j cached. rw (works.zadd_value, works.zadd_listed) (ground (arith, h.tracked j cached));
    apart = rw works.zadd_listed (ground (arith, eq_iff k l2_lru_key, h.apart));
    rest_apart = refl;
  }

  -- A key that has no value may leave the order.
  pub zrem-Tracks :
      (k : String) (w : W)
      → value w k ≡ none
      → Tracks [] w
      → Tracks [] (redis.zrem l2_lru_key k w).1
  zrem-Tracks k w gone h = record {
    tracked = λ j cached.
        rw (works.zrem_value, works.zrem_members, listed-remove)
          (ground (arith, h.tracked j cached, eq_iff k j));
    apart = rw (works.zrem_members, listed-remove) (ground (arith, h.apart));
    rest_apart = refl;
  }

  pub zpopmin-Tracks :
      (n : ℕ) (w : W)
      → Tracks [] w
      → Tracks (take_first n (members w l2_lru_key)) (redis.zpopmin l2_lru_key (pos n) w).1
  zpopmin-Tracks n w h = record {
    tracked = λ j cached.
        rw (works.zpopmin_value, works.zpopmin_members)
          (ground (arith, h.tracked j cached, listed-split j n (members w l2_lru_key)));
    apart =
        rw works.zpopmin_members
          (ground (arith, h.apart, listed-split l2_lru_key n (members w l2_lru_key)));
    rest_apart = ground (arith, h.apart, listed-split l2_lru_key n (members w l2_lru_key));
  }

  pub del-Tracks :
      (k : String) (rest : List String) (w : W)
      → Tracks (k ∷ rest) w
      → Tracks rest (redis.del (k ∷ []) w).1
  del-Tracks k rest w h = record {
    tracked = λ j cached.
        rw (works.del_value, works.del_members) (ground (arith, h.tracked j cached, h.rest_apart));
    apart = rw works.del_members (ground (arith, h.apart));
    rest_apart = ground (arith, h.rest_apart);
  }

  pub delete_each-Tracks :
      (f : Floats Float) (codec : Codec L2CacheValue) (rest : List String) (w : W)
      → Tracks rest w
      → Tracks [] (delete_each f clock redis codec rest w).1
  unfolding delete_each
  delete_each-Tracks f codec [] w h = h
  delete_each-Tracks f codec (k ∷ rest) w h =
      delete_each-Tracks f codec rest _ (del-Tracks k rest w h)
