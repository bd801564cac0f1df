-- ===== src/L2/Stores.antt =====
-- What `setL2` of gateway/l2_cache.go leaves in a Redis that works.
use distributed_caching.Base.{
  ℕ, ◌-◌, ◌≤◌, ◌<◌, ◌≡◌, ◌≢◌, refl, ◌∙◌, Bool, true, false, String, List, [], ◌∷◌, ◌++◌,
  if◌then◌else◌, length, All, string_keys, arith, length-drop, length-append, dec_lt,
}
use distributed_caching.Base.Int.{ℤ, pos, ltb_ℤ, ◌-ℤ◌}
use distributed_caching.Cache.{L2CacheValue}
use distributed_caching.Floats.{Floats}
use distributed_caching.L2.{l2_lru_key, score_now, track_l2, remove_l2_lru, delete_each}
use distributed_caching.L2.Working.{
  View, Works, take_first, remove, remove-All, remove-ne, take_first-All, delete_each-value,
  delete_each-members,
}
use distributed_caching.Outside.{◌>>=◌, Clock, Redis, Codec}

pub if-apply {ℓ κ} :
    {A : Type ℓ} {B : Type κ} (b : Bool) (g h : A → B) (a : A)
    → (if b then g else h) a ≡ (if b then g a else h a)
if-apply true g h a = refl
if-apply false g h a = refl

pub pos-sub : (a b : ℕ) → b < a → pos a -ℤ pos b ≡ pos (a - b)
unfolding ◌-ℤ◌
pos-sub a b h = ground arith

module _ {W Float : Type 0} (f : Floats Float) (clock : Clock W) (redis : Redis W Float)
    (codec : Codec L2CacheValue) (view : View W Float) (works : Works clock redis view) where
  open view use {value, members, is_top}

  -- The world after the time was read and the key was put into the order.
  abbrev pub scored : W → W
  scored w = (score_now f clock redis codec w).1

  abbrev pub score : W → Float
  score w = (score_now f clock redis codec w).0

  abbrev pub added : String → W → W
  added key w = (redis.zadd l2_lru_key (score w) key (scored w)).1

  -- The keys but the new one, in order of use.
  abbrev others : String → W → List String
  others key w = remove key (members (scored w) l2_lru_key)

  pub remove_l2_lru-pops :
      (n : ℕ) (w : W)
      → (remove_l2_lru f clock redis codec (pos n) w).1
        ≡ (delete_each f clock redis codec
            (take_first n (members w l2_lru_key))
            (redis.zpopmin l2_lru_key (pos n) w).1).1
  unfolding remove_l2_lru
  remove_l2_lru-pops n w = rw (works.zpopmin_reply l2_lru_key n w, ◌>>=◌, remove_l2_lru) refl

  module _ (key : String) (w : W) (top : is_top (scored w) l2_lru_key (score w) ≡ true) where
    added_members : members (added key w) l2_lru_key ≡ others key w ++ key ∷ []
    added_members = works.zadd_top l2_lru_key (score w) key (scored w) top

    abbrev count : ℕ
    count = length (others key w ++ key ∷ [])

    track_l2-cases :
        (max_entries : ℤ)
        → track_l2 f clock redis codec key max_entries w ≡ (
            if ltb_ℤ max_entries (pos count)
            then remove_l2_lru f clock redis codec (pos count -ℤ max_entries) (added key w)
            else (tt, added key w))
    unfolding track_l2
    track_l2-cases max_entries =
        rw ((works.zadd_reply l2_lru_key (score w) key (scored w)).1, works.zcard, added_members)
          (if-apply (ltb_ℤ max_entries (pos count)) _ _ (added key w))

    -- The two ends of `setL2`: with room, and with a surplus that is popped and deleted.
    module _ (max : ℕ) where
      abbrev surplus : ℕ
      surplus = count - max

      abbrev popped : W
      popped = (redis.zpopmin l2_lru_key (pos surplus) (added key w)).1

      track_l2-room : count ≤ max → (track_l2 f clock redis codec key (pos max) w).1 ≡ added key w
      track_l2-room h =
          let fits : ltb_ℤ (pos max) (pos count) ≡ false = ground arith in
          rw (track_l2-cases (pos max)) (rw fits refl)

      track_l2-full :
          max < count
          → (track_l2 f clock redis codec key (pos max) w).1
            ≡ (delete_each f clock redis codec
                (take_first surplus (others key w ++ key ∷ []))
                popped).1
      track_l2-full h =
          let full : ltb_ℤ (pos max) (pos count) ≡ true = ground arith in
          rw (track_l2-cases (pos max)) (
            rw (full, pos-sub count max h)
              (remove_l2_lru-pops surplus (added key w) ∙ rw added_members refl))

      -- The keys that are popped are older than the new one, and none of them is the order's key.
      module _ (some_left : 0 < max) (h : max < count) where
        popped-All :
            (P : String → Type 0)
            → All P (others key w)
            → All P (take_first surplus (others key w ++ key ∷ []))
        popped-All P a =
            take_first-All P surplus (others key w) (key ∷ [])
              (omega (arith, length-append (others key w) (key ∷ []))) a

      pub track_l2-bound :
          0 < max
          → All (λ k. k ≢ l2_lru_key) (members (scored w) l2_lru_key)
          → length (members (track_l2 f clock redis codec key (pos max) w).1 l2_lru_key) ≤ max
      track_l2-bound left apart = elim (dec_lt max count) [
        | no h ↦ rw (track_l2-room (omega arith)) (rw added_members (omega arith))
        | yes h ↦
            let a = popped-All left h _ (remove-All _ key (members (scored w) l2_lru_key) apart) in
            rw (track_l2-full h) (
              rw
                (
                  delete_each-members clock redis view works f codec _ popped l2_lru_key a,
                  works.zpopmin_members,
                  added_members,
                )
                (omega (arith, length-drop surplus (others key w ++ key ∷ []))))
      ]

      pub track_l2-keeps :
          0 < max
          → value (track_l2 f clock redis codec key (pos max) w).1 key ≡ value (added key w) key
      track_l2-keeps left = elim (dec_lt max count) [
        | no h ↦ rw (track_l2-room (omega arith)) refl
        | yes h ↦
            let a = popped-All left h _ (remove-ne key (members (scored w) l2_lru_key)) in
            rw (track_l2-full h) (
              delete_each-value clock redis view works f codec _ popped key a
              ∙ works.zpopmin_value l2_lru_key surplus (added key w) key)
      ]
