-- ===== src/Provenance/Second.antt =====
-- The second level, gateway/l2_cache.go.
use distributed_caching.Base.{
  ◌≡◌, refl, sym, subst, Bool, true, String, List, [], ◌∷◌, Option, some, inl, inr,
}
use distributed_caching.Base.Int.{ℤ, pos, leb_ℤ, ltb_ℤ}
use distributed_caching.Cache.{KeyValue, L2CacheValue}
use distributed_caching.Fetch.{Env}
use distributed_caching.L2.{
  l2_lru_key, get_l2, set_l2, track_l2, remove_l2_lru, delete_each, score_now, to_l2, from_l2,
}
use distributed_caching.Outside.{Io, Reply, ok, err, ◌>>=◌, pure}
use distributed_caching.Outside.Ensuring.{Ensures, option-Ensures, reply_option-Ensures}
use distributed_caching.Outside.Keeping.{Keeping, reply-Keeping, if-Keeping}
use distributed_caching.Provenance.First.{some_injective}
use distributed_caching.Provenance.{IsFrom, IsSound, Quiet, Writes, Documented, FromOption}
use distributed_caching.Time.{Duration}

module _ {W Float : Type 0} (env : Env W Float) (value : W → String → Option String)
    (is_key : String → Bool) (laws : Documented env value is_key) where
  open env use {floats, clock, redis, codec}

  abbrev pub Sound : W → Type 0
  Sound = IsSound env value is_key

  abbrev From : String → Option KeyValue → Type 0
  From key = FromOption env key

  pub Quiet-Keeping : {A : Type 0} (m : Io W A) → Quiet env value is_key m → Keeping Sound m
  Quiet-Keeping m quiet w h = record {
    sound = λ k t v cached stored decoded. h.sound k t v cached (quiet w k t stored) decoded;
  }

  -- A text under a key that is none of a request's, or that decodes to what is from the backend.
  pub Writes-Keeping :
      {A : Type 0} (k t : String) (m : Io W A)
      → Writes env value is_key k t m
      → ((v : L2CacheValue) → is_key k ≡ true → codec.decode t ≡ some v → IsFrom env k v.value)
      → Keeping Sound m
  Writes-Keeping k t m writes from w h = record {
    sound = λ j u v cached stored decoded. elim (writes w j u stored) [
      | inl old ↦ h.sound j u v cached old decoded
      | inr (same_key, same_text) ↦
          subst (λ i. IsFrom env i v.value) same_key
            (from v (rw same_key cached) (rw same_text decoded))
    ];
  }

  score_now-Keeping : Keeping Sound (score_now floats clock redis codec)
  unfolding score_now
  score_now-Keeping w h = Quiet-Keeping clock.now laws.now w h

  pub get_l2-Ensures :
      (key : String)
      → is_key key ≡ true
      → Ensures Sound (get_l2 floats clock redis codec key) (From key)
  unfolding get_l2 from_l2
  get_l2-Ensures key cached w h =
      reply_option-Ensures Sound (From key) (redis.get key w).0 _ _ _
        (λ e s g. (g, λ v is_none. cc))
        (λ s g. (
          Quiet-Keeping (redis.zrem l2_lru_key key) (laws.zrem l2_lru_key key) s g,
          λ v is_none. cc,
        ))
        (λ t there.
          option-Ensures Sound (From key) (codec.decode t) _ _
            (λ bad s g. (
              Quiet-Keeping (redis.zrem l2_lru_key key) (laws.zrem l2_lru_key key) _
                  (Quiet-Keeping (redis.del (key ∷ [])) (laws.del (key ∷ [])) s g),
              λ v is_none. cc,
            ))
            (λ v good s g.
              let (score, s1) = score_now floats clock redis codec s in
              let from = h.sound key t v cached (laws.get_reads key t w there) good in
              (
                Quiet-Keeping (redis.zadd l2_lru_key score key) (laws.zadd l2_lru_key score key) s1
                    (score_now-Keeping s g),
                λ u e. subst (λ x. IsFrom env key x.value) (some_injective e) from,
              )))
        (redis.get key w).1 (Quiet-Keeping (redis.get key) (laws.get key) w h)

  delete_each-Keeping :
      (keys : List String) → Keeping Sound (delete_each floats clock redis codec keys)
  unfolding delete_each
  delete_each-Keeping [] w h = h
  delete_each-Keeping (k ∷ keys) w h =
      delete_each-Keeping keys _ (Quiet-Keeping (redis.del (k ∷ [])) (laws.del (k ∷ [])) w h)

  remove_l2_lru-Keeping : (n : ℤ) → Keeping Sound (remove_l2_lru floats clock redis codec n)
  unfolding remove_l2_lru
  remove_l2_lru-Keeping n w h =
      reply-Keeping Sound (redis.zpopmin l2_lru_key n w).0 _ _ (λ e s g. g)
        (λ keys. delete_each-Keeping keys) (redis.zpopmin l2_lru_key n w).1
        (Quiet-Keeping (redis.zpopmin l2_lru_key n) (laws.zpopmin l2_lru_key n) w h)

  track_l2-Keeping :
      (key : String) (max : ℤ) → Keeping Sound (track_l2 floats clock redis codec key max)
  unfolding track_l2
  track_l2-Keeping key max w h =
      let (score, w1) = score_now floats clock redis codec w in
      reply-Keeping Sound (redis.zadd l2_lru_key score key w1).0 _ _ (λ e s g. g)
        (λ added s g.
          reply-Keeping Sound (redis.zcard l2_lru_key s).0 _ _ (λ e t i. i)
            (λ count. if-Keeping Sound (ltb_ℤ max count) _ _ (remove_l2_lru-Keeping _) (λ t i. i))
            (redis.zcard l2_lru_key s).1
            (Quiet-Keeping (redis.zcard l2_lru_key) (laws.zcard l2_lru_key) s g))
        (redis.zadd l2_lru_key score key w1).1
        (Quiet-Keeping (redis.zadd l2_lru_key score key) (laws.zadd l2_lru_key score key) w1
          (score_now-Keeping w h))

  pub set_l2-Keeping :
      (key : String) (v : KeyValue) (ttl : Duration) (max : ℤ)
      → IsFrom env key v.value
      → Keeping Sound (set_l2 floats clock redis codec key v ttl max)
  unfolding set_l2 to_l2
  set_l2-Keeping key v ttl max from =
      if-Keeping Sound (leb_ℤ max (pos 0)) _ _ (λ w h. h) (encoded (codec.encode (to_l2 v)) refl)
    where
      encoded :
          (r : Reply String)
          → codec.encode (to_l2 v) ≡ r
          → Keeping Sound (elim r [
            | err _ ↦ pure tt
            | ok text ↦ do
              reply ← redis.set key text ttl
              elim reply [ err _ ↦ pure tt | ok _ ↦ track_l2 floats clock redis codec key max ]
          ])
      encoded (err e) same w h = h
      encoded (ok t) same w h =
          reply-Keeping Sound (redis.set key t ttl w).0 _ _ (λ e s g. g)
            (λ done. track_l2-Keeping key max) (redis.set key t ttl w).1
            (Writes-Keeping key t (redis.set key t ttl) (laws.set key t ttl)
              (λ u cached decoded.
                subst (λ b. IsFrom env key b) (sym (laws.keeps_value (to_l2 v) u t same decoded))
                  from)
              w h)
