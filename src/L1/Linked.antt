-- ===== src/L1/Linked.antt =====
-- The map and the list of the L1 cache agree: the invariant of gateway/l1_cache.go.
use distributed_caching.Base.{
  ℕ, ◌<◌, ◌≡◌, refl, String, List, [], ◌∷◌, Option, none, some, length, All, lookup, delete,
  Distinct, arith, if◌then◌else◌, ◌==◌, nat_keys, string_keys, Bool-cases, inl, inr, eq_iff,
  delete_absent, ◌≢◌, ap,
}
use distributed_caching.Cache.{KeyValue, CacheEntry}
use distributed_caching.L1.{Address, Order, L1}

-- The address of the element whose entry has the key.
unfoldable pub address_of : String → Order → Option Address
address_of k [] = none
address_of k ((a, x) ∷ o) = if x.key == k then some a else address_of k o

-- The list without the addresses: the keys and values, most recently used first.
abbrev pub view : Order → List (String × KeyValue)
view [] = []
view ((a, x) ∷ o) = (x.key, x.value) ∷ view o

abbrev pub Below : ℕ → Order → Type 0
Below n = All (λ p. p.0 < n)

pub record IsLinked (s : L1) : Type 0 where
  pub linked : (k : String) → lookup k s.cache ≡ address_of k s.order
  pub cache_distinct : Distinct s.cache
  pub order_distinct : Distinct s.order
  pub keys_distinct : Distinct (view s.order)
  pub size : length s.cache ≡ length s.order
  pub fresh : Below s.next_address s.order

module _ (k : String) where
  pub lookup-view_absent : (o : Order) → address_of k o ≡ none → lookup k (view o) ≡ none
  unfolding lookup address_of
  lookup-view_absent [] h = refl
  lookup-view_absent ((a, x) ∷ o) h = ground (arith, lookup-view_absent o)

  pub address_of_absent : (o : Order) → lookup k (view o) ≡ none → address_of k o ≡ none
  unfolding lookup address_of
  address_of_absent [] h = refl
  address_of_absent ((a, x) ∷ o) h = ground (arith, address_of_absent o)

-- What is known of an element found through the map.
pub record Found (k : String) (a : Address) (o : Order) : Type 0 where
  pub entry : CacheEntry
  pub here : lookup a o ≡ some entry
  pub key_eq : entry.key ≡ k
  pub seen : lookup k (view o) ≡ some entry.value
  pub dropped : view (delete a o) ≡ delete k (view o)

module _ (k : String) where
  pub found :
      (a : Address) (o : Order)
      → Distinct o
      → Distinct (view o)
      → address_of k o ≡ some a
      → Found k a o
  unfolding lookup delete address_of
  found a [] d e h = cc
  found a ((b, x) ∷ o) d e h = elim (Bool-cases (x.key == k)) [
    | inl same ↦ record {
      entry = x;
      here = ground arith;
      key_eq = (eq_iff x.key k).0 same;
      seen = ground arith;
      dropped = ground (arith, eq_iff x.key k, delete_absent b o, delete_absent k (view o));
    }
    | inr other ↦
        let r = found a o d.1 e.1 (rw other at h) in
        let apart : b ≢ a = λ p. cc (d.0, r.here) in
        record {
          entry = r.entry;
          here = ground (arith, r.here);
          key_eq = r.key_eq;
          seen = ground (arith, r.seen);
          dropped = ground (arith, r.dropped);
        }
  ]

  -- The element at an address, seen through its key.
  pub address_of_entry :
      (a : Address) (x : CacheEntry) (o : Order)
      → Distinct (view o)
      → lookup a o ≡ some x
      → x.key ≡ k
      → address_of k o ≡ some a
  unfolding lookup address_of
  address_of_entry a x [] e h q = cc
  address_of_entry a x ((b, y) ∷ o) e h q = elim (Bool-cases (b == a)) [
    | inl same ↦ ground (arith, eq_iff y.key k)
    | inr other ↦
        let ih = address_of_entry a x o e.1 (rw other at h) q in
        let apart = address_of_absent y.key o e.0 in ground (arith, eq_iff y.key k)
  ]

module _ (k : String) where
  pub address_of-delete :
      (a : Address) (x : CacheEntry) (o : Order)
      → Distinct o
      → Distinct (view o)
      → lookup a o ≡ some x
      → address_of k (delete a o) ≡ (if x.key == k then none else address_of k o)
  unfolding lookup delete address_of
  address_of-delete a x [] d e h = cc
  address_of-delete a x ((b, y) ∷ o) d e h = elim (Bool-cases (b == a)) [
    | inl same ↦ ground (arith, eq_iff y.key k, delete_absent b o, address_of_absent y.key o e.0)
    | inr other ↦
        let ih = address_of-delete a x o d.1 e.1 (rw other at h) in
        let clash = address_of_entry x.key a x o e.1 (rw other at h) refl in
        let alone = address_of_absent y.key o e.0 in
        let apart : x.key ≢ y.key = λ p. cc (clash, alone, ap (λ t. address_of t o) p) in
        ground (arith, eq_iff y.key k, eq_iff x.key k)
  ]
