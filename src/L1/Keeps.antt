-- ===== src/L1/Keeps.antt =====
-- Every write of gateway/l1_cache.go to the map and the list keeps them in agreement.
use distributed_caching.Base.{
  ℕ, suc, ◌<◌, ◌≡◌, refl, String, List, [], ◌∷◌, none, some, lookup, delete, Distinct,
  lookup-delete, lookup-insert, delete-Distinct, insert-Distinct, arith, nat_keys, string_keys,
  eq_iff, delete_absent, length-delete, length-insert_new, last?, drop_last, delete-cons_ne,
  delete-cons_self, ◌≢◌, ◌∙◌, sym, ap,
}
use distributed_caching.Cache.{KeyValue, CacheEntry}
use distributed_caching.L1.{Address, Order, L1, push_l1, clear_l1}
use distributed_caching.L1.Linked.{
  address_of, view, Below, IsLinked, lookup-view_absent, found, address_of-delete, Found,
  address_of_entry,
}

Below-delete : (n a : ℕ) (o : Order) → Below n o → Below n (delete a o)
unfolding delete
Below-delete n a [] h = tt
Below-delete n a ((b, x) ∷ o) h = ground (arith, Below-delete n a o)

Below-suc : (n : ℕ) (o : Order) → Below n o → Below (suc n) o
Below-suc n [] h = tt
Below-suc n ((b, x) ∷ o) h = (omega arith, Below-suc n o h.1)

Below-lookup : (n : ℕ) (o : Order) → Below n o → lookup n o ≡ none
unfolding lookup
Below-lookup n [] h = refl
Below-lookup n ((b, x) ∷ o) h = ground (arith, Below-lookup n o)

lookup-delete_key : (k : String) (l : List (String × KeyValue)) → lookup k (delete k l) ≡ none
lookup-delete_key k l = ground (arith, lookup-delete k k l, eq_iff k k)

lt_of_lookup : (n a : ℕ) (x : CacheEntry) (o : Order) → Below n o → lookup a o ≡ some x → a < n
unfolding lookup
lt_of_lookup n a x [] h e = cc
lt_of_lookup n a x ((b, y) ∷ o) h e = ground (arith, lt_of_lookup n a x o)

lookup-delete_self : (a : Address) (o : Order) → lookup a (delete a o) ≡ none
lookup-delete_self a o = ground (arith, lookup-delete a a o)

module _ (s : L1) (inv : IsLinked s) (a : Address) (x : CacheEntry)
    (here : lookup a s.order ≡ some x) where
  open inv use {linked, cache_distinct, order_distinct, keys_distinct, size, fresh}

  pub entry-Found : Found x.key a s.order
  entry-Found =
      found x.key a s.order order_distinct keys_distinct
        (address_of_entry x.key a x s.order keys_distinct here refl)

  -- The element goes to the front, with a value that may be new.
  pub moved-IsLinked :
      (v : KeyValue)
      → IsLinked (record s { order = (a, record { key = x.key; value = v }) ∷ delete a s.order })
  unfolding address_of
  moved-IsLinked v = record {
    linked = λ k. ground (
      arith,
      linked k,
      eq_iff x.key k,
      address_of-delete k a x s.order order_distinct keys_distinct here,
      address_of_entry k a x s.order keys_distinct here,
    );
    cache_distinct = cache_distinct;
    order_distinct = (lookup-delete_self a s.order, delete-Distinct a s.order order_distinct);
    keys_distinct = rw entry-Found.dropped (
      lookup-delete_key x.key (view s.order),
      delete-Distinct x.key (view s.order) keys_distinct,
    );
    size = omega (arith, size, length-delete a x s.order order_distinct here);
    fresh = (lt_of_lookup _ a x s.order fresh here, Below-delete _ a s.order fresh);
  }

  -- The element is removed, and its key from the map.
  pub removed-IsLinked :
      IsLinked (record s { cache = delete x.key s.cache; order = delete a s.order })
  removed-IsLinked = record {
    linked = λ k. ground (
      arith,
      linked k,
      lookup-delete x.key k s.cache,
      address_of-delete k a x s.order order_distinct keys_distinct here,
    );
    cache_distinct = delete-Distinct x.key s.cache cache_distinct;
    order_distinct = delete-Distinct a s.order order_distinct;
    keys_distinct = rw entry-Found.dropped (delete-Distinct x.key (view s.order) keys_distinct);
    size = omega (
      arith,
      size,
      length-delete a x s.order order_distinct here,
      length-delete x.key a s.cache cache_distinct
          (linked x.key ∙ address_of_entry x.key a x s.order keys_distinct here refl),
    );
    fresh = Below-delete s.next_address a s.order fresh;
  }

-- A new element goes to the front.
pub push_l1-IsLinked :
    (k : String) (v : KeyValue) (s : L1)
    → IsLinked s
    → lookup k s.cache ≡ none
    → IsLinked (push_l1 k v s)
unfolding push_l1 address_of
push_l1-IsLinked k v s inv absent = record {
  linked = λ j. ground (arith, linked j, lookup-insert k j s.next_address s.cache);
  cache_distinct = insert-Distinct k s.next_address s.cache cache_distinct;
  order_distinct = (Below-lookup s.next_address s.order fresh, order_distinct);
  keys_distinct = (lookup-view_absent k s.order (sym (linked k) ∙ absent), keys_distinct);
  size = omega (arith, size, length-insert_new k s.next_address s.cache absent);
  fresh = (omega arith, Below-suc s.next_address s.order fresh);
}
  where
    open inv use {linked, cache_distinct, order_distinct, keys_distinct, size, fresh}

pub clear_l1-IsLinked : (s : L1) → IsLinked (clear_l1 s)
unfolding clear_l1 address_of lookup
clear_l1-IsLinked s = record {
  linked = λ k. refl;
  cache_distinct = tt;
  order_distinct = tt;
  keys_distinct = tt;
  size = refl;
  fresh = tt;
}

lookup-nil : (a : Address) → lookup {V = CacheEntry} a [] ≡ none
unfolding lookup
lookup-nil a = refl

-- The last element of the list.
module _ (a : Address) (x : CacheEntry) where
  pub lookup-last : (o : Order) → Distinct o → last? o ≡ some (a, x) → lookup a o ≡ some x
  unfolding lookup
  lookup-last [] d h = cc
  lookup-last (p ∷ []) d h = ground arith
  lookup-last ((b, y) ∷ p ∷ o) d h =
      let ih = lookup-last (p ∷ o) d.1 h in ground (arith, ap (λ t. lookup t (p ∷ o)))

  pub view-delete_last :
      (o : Order) → Distinct o → last? o ≡ some (a, x) → view (delete a o) ≡ drop_last (view o)
  view-delete_last [] d h = cc
  view-delete_last ((b, y) ∷ []) d h =
      let same : b ≡ a = ground arith in
      rw (same, delete-cons_self a y [], delete_absent a [] (lookup-nil a)) refl
  view-delete_last ((b, y) ∷ p ∷ o) d h =
      let there = lookup-last (p ∷ o) d.1 h in
      let apart : b ≢ a = λ q. cc (d.0, there, ap (λ t. lookup t (p ∷ o)) q) in
      rw (delete-cons_ne a b y (p ∷ o) apart, view-delete_last (p ∷ o) d.1 h) refl
