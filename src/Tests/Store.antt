-- ===== src/Tests/Store.antt =====
-- A Redis of strings and sorted sets in which each new score is the highest, and a codec of one text.
use distributed_caching.Base.{
  ℕ, zero, suc, ◌≡◌, refl, true, false, ◌||◌, String, List, [], ◌∷◌, ◌++◌, Option, none, some,
  length, drop, if◌then◌else◌, string_keys, ◌==◌, eq_iff, arith, ap, ◌∙◌,
}
use distributed_caching.Base.Int.{ℤ, pos, pos_part}
use distributed_caching.ConfigStore.Working.{Counter, Works as ConfigWorks}
use distributed_caching.L2.Working.{View, Works, take_first, remove, listed}
use distributed_caching.Outside.{ok, Clock, Redis}
use distributed_caching.Time.{Duration}
use Prim.Native.String.count
use Prim.Native.String.{count, ◌∷◌ as cons}

pub record World : Type 0 where
  pub strings : String → Option String
  pub sets : String → List String
  pub clock : ℕ

abbrev pub ticking : Clock World
ticking = record { now = λ w. (pos w.clock, record w { clock = suc w.clock }) }

abbrev put : String → String → World → World
put k t w = record w { strings = λ j. if k == j then some t else w.strings j }

abbrev erase : String → World → World
erase k w = record w {
  strings = λ j. if k == j then none else w.strings j;
  sets = λ z. if k == z then [] else w.sets z;
}

abbrev erase_all : List String → World → World
erase_all [] w = w
erase_all (k ∷ ks) w = erase_all ks (erase k w)

abbrev put_set : String → List String → World → World
put_set z xs w = record w { sets = λ y. if z == y then xs else w.sets y }

abbrev read_all : List String → World → List (Option String)
read_all [] w = []
read_all (k ∷ ks) w = w.strings k ∷ read_all ks w

-- A counter is written with as many ones as it counts.
unfoldable pub ones : ℕ → String
ones zero = ""
ones (suc n) = cons "1" (ones n)

unfoldable pub parse_ones : String → Option ℤ
parse_ones t = some (pos (count t))

abbrev count_of : Option String → ℕ
count_of none = 0
count_of (some t) = count t

abbrev pub store : Redis World ℕ
store = record {
  get = λ k w. (ok (w.strings k), w);
  set = λ k t ttl w. (ok tt, put k t w);
  set_nx = λ k t ttl w. elim (w.strings k) [ none ↦ (ok true, put k t w) | some _ ↦ (ok false, w) ];
  del = λ ks w. (ok (pos (length ks)), erase_all ks w);
  key_exists = λ k w. (ok (elim (w.strings k) [ none ↦ pos 0 | some _ ↦ pos 1 ]), w);
  mget = λ ks w. (ok (read_all ks w), w);
  zadd = λ z x k w. (ok (pos 1), put_set z (remove k (w.sets z) ++ k ∷ []) w);
  zrem = λ z k w. (ok (pos 1), put_set z (remove k (w.sets z)) w);
  zcard = λ z w. (ok (pos (length (w.sets z))), w);
  zpopmin = λ z n w.
      (ok (take_first (pos_part n) (w.sets z)), put_set z (drop (pos_part n) (w.sets z)) w);
  zrange_all = λ z w. (ok (w.sets z), w);
  set_and_incr = λ k t c w.
      let n = suc (count_of (w.strings c)) in (ok (ok (pos n)), put c (ones n) (put k t w));
  run_script = λ p w. (ok (p w).0, (p w).1);
  call_get = λ k w. (w.strings k, w);
  call_del = λ k w. (pos 1, erase k w);
  call_exists = λ k w. (elim (w.strings k) [ none ↦ pos 0 | some _ ↦ pos 1 ], w);
  call_set = λ k t w. (tt, put k t w);
}

abbrev pub store_view : View World ℕ
store_view = record {
  value = λ w k. w.strings k;
  members = λ w z. w.sets z;
  is_top = λ w z x. true;
}

put_set_self : (z : String) (xs : List String) (w : World) → (put_set z xs w).sets z ≡ xs
put_set_self z xs w = ground (arith, eq_iff z z)

erase_all-strings :
    (ks : List String) (w : World) (j : String)
    → (erase_all ks w).strings j ≡ (if listed j ks then none else w.strings j)
erase_all-strings [] w j = refl
erase_all-strings (k ∷ ks) w j = ground (arith, erase_all-strings ks (erase k w) j)

erase_all-sets :
    (ks : List String) (w : World) (z : String)
    → (erase_all ks w).sets z ≡ (if listed z ks then [] else w.sets z)
erase_all-sets [] w z = refl
erase_all-sets (k ∷ ks) w z = ground (arith, erase_all-sets ks (erase k w) z)

listed-added :
    (k j : String) (xs : List String) → listed j (remove k xs ++ k ∷ []) ≡ (k == j || listed j xs)
listed-added k j [] = refl
listed-added k j (x ∷ xs) = ground (arith, listed-added k j xs, eq_iff x k, eq_iff x j, eq_iff k j)

pub store-Works : Works ticking store store_view
store-Works = record {
  now_value = λ w k. refl;
  now_members = λ w z. refl;
  get = λ k w. refl;
  set_reply = λ k t ttl w. refl;
  set_value = λ k t ttl w j. refl;
  zadd_reply = λ z x k w. (pos 1, refl);
  zadd_value = λ z x k w j. refl;
  zadd_top = λ z x k w top. put_set_self z (remove k (w.sets z) ++ k ∷ []) w;
  zcard = λ z w. refl;
  zpopmin_reply = λ z n w. refl;
  zpopmin_members = λ z n w. put_set_self z (drop n (w.sets z)) w;
  zpopmin_value = λ z n w j. refl;
  zadd_listed = λ z x k w j.
      ap (listed j) (put_set_self z (remove k (w.sets z) ++ k ∷ []) w)
      ∙ listed-added k j (w.sets z);
  zrem_value = λ z k w j. refl;
  zrem_members = λ z k w. put_set_self z (remove k (w.sets z)) w;
  zrange_all = λ z w. refl;
  set_members = λ k t ttl w z apart. refl;
  del_reply = λ ks w. (pos (length ks), refl);
  del_value = erase_all-strings;
  del_members = erase_all-sets;
}

pub count-ones : (n : ℕ) → count (ones n) ≡ n
unfolding ones
count-ones zero = refl
count-ones (suc n) = (λ i. count.cons "1" (ones n) i) ∙ ap suc (count-ones n)

unfoldable pub counter_of_ones : Counter parse_ones
unfolding parse_ones ones
counter_of_ones = record {
  text_of = ones;
  parses = λ n. ap (λ m. some (pos m)) (count-ones n);
  text_of_one = refl;
}

counted :
    (w : World) (c : String) (n : ℕ)
    → w.strings c ≡ some (ones n)
    → suc (count_of (w.strings c)) ≡ suc n
counted w c n h = ap (λ t. suc (count_of t)) h ∙ ap suc (count-ones n)

pub store-ConfigWorks : ConfigWorks store (λ w k. w.strings k) counter_of_ones
unfolding ones counter_of_ones
store-ConfigWorks = record {
  mget = λ j k w. refl;
  set_and_incr_reply = λ k t c w n h. ap (λ m. ok (ok (pos m))) (counted w c n h);
  set_and_incr_value = λ k t c w n j h.
      ap (λ m. if c == j then some (ones m) else if k == j then some t else w.strings j)
        (counted w c n h);
  script = λ p w. refl;
  call_exists = λ k w. refl;
  call_set = λ k t w j. refl;
}

module _ (k t : String) (ttl : Duration) (w : World) where
  pub store-taken : (s : String) → w.strings k ≡ some s → store.set_nx k t ttl w ≡ (ok false, w)
  store-taken s h = rw h refl

  pub store-free_reply : w.strings k ≡ none → (store.set_nx k t ttl w).0 ≡ ok true
  store-free_reply h = rw h refl

  pub store-free_value :
      (j : String)
      → w.strings k ≡ none
      → (store.set_nx k t ttl w).1.strings j ≡ (if k == j then some t else w.strings j)
  store-free_value j h = rw h refl
