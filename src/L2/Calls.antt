-- ===== src/L2/Calls.antt =====
-- Each call of gateway/l2_cache.go, in a Redis that works: which keys the order lists after it, and
-- what `clearL2` leaves.
use distributed_caching.Base.{
  ℕ, zero, suc, ◌-◌, ◌≡◌, ◌⊎◌, refl, ◌∙◌, Bool, true, false, String, List, [], ◌∷◌, none,
  if◌then◌else◌, length, string_keys, ◌==◌, eq_iff, arith, Bool-cases, Option-cases, inl, inr,
}
use distributed_caching.Base.Int.{ℤ, pos, negsuc, leb_ℤ, ltb_ℤ, ◌-ℤ◌}
use distributed_caching.Cache.{KeyValue, L2CacheValue}
use distributed_caching.Floats.{Floats}
use distributed_caching.L2.{
  l2_lru_key, to_l2, get_l2, set_l2, track_l2, remove_l2_lru, score_now, clear_l2,
}
use distributed_caching.L2.Stores.{if-apply, pos-sub, remove_l2_lru-pops}
use distributed_caching.L2.Tracked.{
  Tracks, now-Tracks, set-Tracks, zadd-Tracks, zrem-Tracks, zpopmin-Tracks, del-Tracks,
  delete_each-Tracks,
}
use distributed_caching.L2.Working.{View, Works, listed}
use distributed_caching.Outside.{◌>>=◌, ok, Clock, Redis, Codec, Reply-cases}
use distributed_caching.Time.{Duration}

List-cases : {A : Type 0} (xs : List A) → (xs ≡ []) ⊎ ((x : A) × (rest : List A) × (xs ≡ x ∷ rest))
List-cases [] = inl refl
List-cases (x ∷ rest) = inr (x, rest, refl)

module _ {W Float : Type 0} (f : Floats Float) (clock : Clock W) (redis : Redis W Float)
    (codec : Codec L2CacheValue) (view : View W Float) (works : Works clock redis view)
    (is_key : String → Bool) (order_apart : is_key l2_lru_key ≡ false) where
  open view use {value, members}

  abbrev TracksHere : List String → W → Type 0
  TracksHere = Tracks clock redis view works is_key order_apart

  -- A key may be looked at again, although nothing is left to be done for it.
  again : (k : String) (w : W) → is_key k ≡ true → TracksHere [] w → TracksHere (k ∷ []) w
  again k w is h = record {
    tracked = λ j cached. ground (arith, h.tracked j cached);
    apart = h.apart;
    rest_apart = ground (arith, eq_iff k l2_lru_key);
  }

  -- The score is read from the clock.
  scored-Tracks :
      (rest : List String) (w : W)
      → TracksHere rest w
      → TracksHere rest (score_now f clock redis codec w).1
  unfolding score_now
  scored-Tracks rest w h = now-Tracks clock redis view works is_key order_apart rest w h

  remove_l2_lru-Tracks :
      (n : ℕ) (w : W)
      → TracksHere [] w
      → TracksHere [] (remove_l2_lru f clock redis codec (pos n) w).1
  remove_l2_lru-Tracks n w h = rw (remove_l2_lru-pops f clock redis codec view works n w) (
      delete_each-Tracks clock redis view works is_key order_apart f codec _ _
        (zpopmin-Tracks clock redis view works is_key order_apart n w h))

  -- The world in which `setL2` counts the keys of the order.
  abbrev entered : String → W → W
  entered k w = let (x, w1) = score_now f clock redis codec w in (redis.zadd l2_lru_key x k w1).1

  abbrev count : String → W → ℕ
  count k w = length (members (entered k w) l2_lru_key)

  track_l2-ends :
      (k : String) (max : ℤ) (w : W)
      → track_l2 f clock redis codec k max w ≡ (
          if ltb_ℤ max (pos (count k w))
          then remove_l2_lru f clock redis codec (pos (count k w) -ℤ max) (entered k w)
          else (tt, entered k w))
  unfolding track_l2
  track_l2-ends k max w =
      let (x, w1) = score_now f clock redis codec w in
      rw ((works.zadd_reply l2_lru_key x k w1).1, works.zcard)
        (if-apply (ltb_ℤ max (pos (count k w))) _ _ (entered k w))

  track_l2-Tracks :
      (k : String) (max : ℕ) (w : W)
      → is_key k ≡ true
      → TracksHere (k ∷ []) w
      → TracksHere [] (track_l2 f clock redis codec k (pos max) w).1
  track_l2-Tracks k max w is h =
      let listed_now : TracksHere [] (entered k w) =
        zadd-Tracks clock redis view works is_key order_apart _ k _ is (scored-Tracks _ w h) in
      elim (Bool-cases (ltb_ℤ (pos max) (pos (count k w)))) [
        | inr room ↦ rw (track_l2-ends k (pos max) w) (rw room listed_now)
        | inl full ↦ rw (track_l2-ends k (pos max) w) (
            rw (full, pos-sub (count k w) max (ground arith))
              (remove_l2_lru-Tracks (count k w - max) (entered k w) listed_now))
      ]

  pub set_l2-Tracks :
      (k : String) (v : KeyValue) (ttl : Duration) (max : ℤ) (w : W)
      → is_key k ≡ true
      → TracksHere [] w
      → TracksHere [] (set_l2 f clock redis codec k v ttl max w).1
  unfolding set_l2
  set_l2-Tracks k v ttl (negsuc m) w is h =
      let off : leb_ℤ (negsuc m) (pos 0) ≡ true = ground arith in rw (off, set_l2) h
  set_l2-Tracks k v ttl (pos zero) w is h = h
  set_l2-Tracks k v ttl (pos (suc m)) w is h =
      let on : leb_ℤ (pos (suc m)) (pos 0) ≡ false = ground arith in
      elim (Reply-cases (codec.encode (to_l2 v))) [
        | inr (e, failed) ↦ rw (on, failed, set_l2) h
        | inl (text, done) ↦
            rw (on, done, set_l2)
              (rw (works.set_reply k text ttl w, ◌>>=◌)
                (track_l2-Tracks k (suc m) _ is
                  (set-Tracks clock redis view works is_key order_apart k text ttl w is h)))
      ]

  pub get_l2-Tracks :
      (k : String) (w : W)
      → is_key k ≡ true
      → TracksHere [] w
      → TracksHere [] (get_l2 f clock redis codec k w).1
  unfolding get_l2
  get_l2-Tracks k w is h = elim (Option-cases (value w k)) [
    | inl gone ↦
        rw (works.get k w, ◌>>=◌, get_l2)
          (rw (gone, ◌>>=◌) (zrem-Tracks clock redis view works is_key order_apart k w gone h))
    | inr (text, there) ↦ elim (Option-cases (codec.decode text)) [
      | inl bad ↦
          rw (works.get k w, ◌>>=◌, get_l2)
            (rw (there, ◌>>=◌)
              (rw (bad, ◌>>=◌)
                (zrem-Tracks clock redis view works is_key order_apart k _
                  (works.del_value (k ∷ []) w k ∙ ground (arith, eq_iff k k))
                  (del-Tracks clock redis view works is_key order_apart k [] w (again k w is h)))))
      | inr (cached, good) ↦
          rw (works.get k w, ◌>>=◌, get_l2)
            (rw (there, ◌>>=◌)
              (rw (good, ◌>>=◌)
                (zadd-Tracks clock redis view works is_key order_apart _ k _ is
                  (scored-Tracks _ w (again k w is h)))))
    ]
  ]

  -- `clearL2` succeeds, and what the order listed is gone.
  pub clear_l2-value :
      (w : W)
      → ((clear_l2 f clock redis codec w).0 ≡ ok tt)
        × (members (clear_l2 f clock redis codec w).1 l2_lru_key ≡ [])
        × ((j : String)
            → (l2_lru_key == j) ≡ false
            → value (clear_l2 f clock redis codec w).1 j
              ≡ (if listed j (members w l2_lru_key) then none else value w j))
  unfolding clear_l2
  clear_l2-value w = elim (List-cases (members w l2_lru_key)) [
    | inl empty ↦
        rw (works.zrange_all l2_lru_key w, ◌>>=◌, clear_l2)
          (rw (empty, ◌>>=◌)
            (rw ((works.del_reply (l2_lru_key ∷ []) w).1, ◌>>=◌)
              (
                refl,
                works.del_members (l2_lru_key ∷ []) w l2_lru_key
                    ∙ ground (arith, eq_iff l2_lru_key l2_lru_key),
                λ j other. works.del_value (l2_lru_key ∷ []) w j ∙ ground arith,
              )))
    | inr (k, rest, some_listed) ↦
        let w1 = (redis.del (k ∷ rest) w).1 in
        rw (works.zrange_all l2_lru_key w, ◌>>=◌, clear_l2)
          (rw (some_listed, ◌>>=◌)
            (rw ((works.del_reply (k ∷ rest) w).1, ◌>>=◌)
              (rw ((works.del_reply (l2_lru_key ∷ []) w1).1, ◌>>=◌)
                (
                  refl,
                  works.del_members (l2_lru_key ∷ []) w1 l2_lru_key
                      ∙ ground (arith, eq_iff l2_lru_key l2_lru_key),
                  λ j other.
                      works.del_value (l2_lru_key ∷ []) w1 j
                      ∙ ground (arith, works.del_value (k ∷ rest) w j),
                ))))
  ]
