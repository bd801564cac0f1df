-- ===== src/L2/Working.antt =====
-- gateway/l2_cache.go against a Redis that works: no command fails, and during the calls no key
-- expires and no other client writes.
use distributed_caching.Base.{
  ℕ, zero, suc, ◌≤◌, ◌≡◌, ◌≢◌, refl, ◌∙◌, Bool, true, false, ◌||◌, String, List, [], ◌∷◌, ◌++◌,
  Option, none, some, if◌then◌else◌, length, drop, All, string_keys, ◌==◌, eq_iff, arith,
  Bool-cases, inl, inr,
}
use distributed_caching.Base.Int.{ℤ, pos}
use distributed_caching.Cache.{L2CacheValue}
use distributed_caching.Floats.{Floats}
use distributed_caching.L2.{delete_each}
use distributed_caching.Outside.{ok, Clock, Redis, Codec}
use distributed_caching.Time.{Duration}

abbrev pub take_first {ℓ} : {A : Type ℓ} → ℕ → List A → List A
take_first zero xs = []
take_first (suc n) [] = []
take_first (suc n) (x ∷ xs) = x ∷ take_first n xs

abbrev pub remove : String → List String → List String
remove k [] = []
remove k (x ∷ xs) = if x == k then remove k xs else x ∷ remove k xs

abbrev pub listed : String → List String → Bool
listed j [] = false
listed j (x ∷ xs) = x == j || listed j xs

-- What the server holds: the text at a key, and the members of a sorted set, lowest score first.
pub record View (W Float : Type 0) : Type 0 where
  pub value : W → String → Option String
  pub members : W → String → List String
  pub is_top : W → String → Float → Bool  -- every other member has a lower score

pub remove-All {κ} :
    (P : String → Type κ) (k : String) (xs : List String) → All P xs → All P (remove k xs)
remove-All P k [] h = tt
remove-All P k (x ∷ xs) h = elim (Bool-cases (x == k)) [
  | inl same ↦ rw same (remove-All P k xs h.1)
  | inr other ↦ rw other (h.0, remove-All P k xs h.1)
]

pub remove-ne : (k : String) (xs : List String) → All (λ x. x ≢ k) (remove k xs)
remove-ne k [] = tt
remove-ne k (x ∷ xs) = elim (Bool-cases (x == k)) [
  | inl same ↦ rw same (remove-ne k xs)
  | inr other ↦ rw other ((λ e. cc (other, (eq_iff x k).1 e)), remove-ne k xs)
]

pub take_first-All {κ} :
    (P : String → Type κ) (n : ℕ) (xs ys : List String)
    → n ≤ length xs
    → All P xs
    → All P (take_first n (xs ++ ys))
take_first-All P zero xs ys h a = tt
take_first-All P (suc n) [] ys h a = absurd (omega arith)
take_first-All P (suc n) (x ∷ xs) ys h a = (a.0, take_first-All P n xs ys (omega arith) a.1)

module _ {W Float : Type 0} (clock : Clock W) (redis : Redis W Float) (view : View W Float) where
  open view use {value, members, is_top}

  -- The documented effect of each command that the second level uses.
  pub record Works : Type 0 where
    pub now_value : (w : W) (k : String) → value (clock.now w).1 k ≡ value w k
    pub now_members : (w : W) (z : String) → members (clock.now w).1 z ≡ members w z
    pub get : (k : String) (w : W) → redis.get k w ≡ (ok (value w k), w)
    pub set_reply : (k t : String) (ttl : Duration) (w : W) → (redis.set k t ttl w).0 ≡ ok tt
    pub set_value :
        (k t : String) (ttl : Duration) (w : W) (j : String)
        → value (redis.set k t ttl w).1 j ≡ (if k == j then some t else value w j)
    pub zadd_reply :
        (z : String) (x : Float) (k : String) (w : W)
        → (added : ℤ) × ((redis.zadd z x k w).0 ≡ ok added)
    pub zadd_value :
        (z : String) (x : Float) (k : String) (w : W) (j : String)
        → value (redis.zadd z x k w).1 j ≡ value w j
    pub zadd_top :
        (z : String) (x : Float) (k : String) (w : W)
        → is_top w z x ≡ true
        → members (redis.zadd z x k w).1 z ≡ remove k (members w z) ++ k ∷ []
    pub zcard : (z : String) (w : W) → redis.zcard z w ≡ (ok (pos (length (members w z))), w)
    pub zpopmin_reply :
        (z : String) (n : ℕ) (w : W)
        → (redis.zpopmin z (pos n) w).0 ≡ ok (take_first n (members w z))
    pub zpopmin_members :
        (z : String) (n : ℕ) (w : W)
        → members (redis.zpopmin z (pos n) w).1 z ≡ drop n (members w z)
    pub zpopmin_value :
        (z : String) (n : ℕ) (w : W) (j : String)
        → value (redis.zpopmin z (pos n) w).1 j ≡ value w j
    pub zadd_listed :
        (z : String) (x : Float) (k : String) (w : W) (j : String)
        → listed j (members (redis.zadd z x k w).1 z) ≡ (k == j || listed j (members w z))
    pub zrem_value : (z k : String) (w : W) (j : String) → value (redis.zrem z k w).1 j ≡ value w j
    pub zrem_members :
        (z k : String) (w : W) → members (redis.zrem z k w).1 z ≡ remove k (members w z)
    pub zrange_all : (z : String) (w : W) → redis.zrange_all z w ≡ (ok (members w z), w)
    pub set_members :
        (k t : String) (ttl : Duration) (w : W) (z : String)
        → k ≢ z
        → members (redis.set k t ttl w).1 z ≡ members w z
    pub del_reply : (ks : List String) (w : W) → (deleted : ℤ) × ((redis.del ks w).0 ≡ ok deleted)
    pub del_value :
        (ks : List String) (w : W) (j : String)
        → value (redis.del ks w).1 j ≡ (if listed j ks then none else value w j)
    pub del_members :
        (ks : List String) (w : W) (z : String)
        → members (redis.del ks w).1 z ≡ (if listed z ks then [] else members w z)

  module _ (works : Works) where
    pub delete_each-value :
        (f : Floats Float) (codec : Codec L2CacheValue) (keys : List String) (w : W) (j : String)
        → All (λ k. k ≢ j) keys
        → value (delete_each f clock redis codec keys w).1 j ≡ value w j
    unfolding delete_each
    delete_each-value f codec [] w j h = refl
    delete_each-value f codec (k ∷ keys) w j h =
        delete_each-value f codec keys (redis.del (k ∷ []) w).1 j h.1
        ∙ ground (arith, works.del_value (k ∷ []) w j, eq_iff k j, h.0)

    pub delete_each-members :
        (f : Floats Float) (codec : Codec L2CacheValue) (keys : List String) (w : W) (z : String)
        → All (λ k. k ≢ z) keys
        → members (delete_each f clock redis codec keys w).1 z ≡ members w z
    unfolding delete_each
    delete_each-members f codec [] w z h = refl
    delete_each-members f codec (k ∷ keys) w z h =
        delete_each-members f codec keys (redis.del (k ∷ []) w).1 z h.1
        ∙ ground (arith, works.del_members (k ∷ []) w z, eq_iff k z, h.0)
