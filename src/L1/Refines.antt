-- ===== src/L1/Refines.antt =====
-- `getL1` of gateway/l1_cache.go implements the abstract cache of `L1.Spec`.
use distributed_caching.Base.{
  suc, true, false, ◌≡◌, refl, ◌∙◌, sym, ap, subst, String, [], ◌∷◌, none, some, length, lookup,
  delete, string_keys, nat_keys, arith, inl, inr, Option-cases, Bool-cases, lookup-insert,
  delete-insert,
}
use distributed_caching.Cache.{KeyValue, CacheEntry}
use distributed_caching.L1.{L1, Address, Order, get_l1, is_expired, move_to_front, assign}
use distributed_caching.L1.Linked.{IsLinked, view, found, Found, lookup-view_absent}
use distributed_caching.L1.Keeps.{moved-IsLinked, removed-IsLinked}
use distributed_caching.L1.Spec.{Lru, touch, lru_get}
use distributed_caching.Time.{Time}

pub length-view : (o : Order) → length (view o) ≡ length o
length-view [] = refl
length-view (p ∷ o) = ap suc (length-view o)

move_to_front-some :
    (a : Address) (x : CacheEntry) (o : Order)
    → lookup a o ≡ some x
    → move_to_front a o ≡ (a, x) ∷ delete a o
unfolding move_to_front
move_to_front-some a x o h = rw (h, move_to_front)

-- Writing the value and moving to the front, in one.
pub move_to_front-assign :
    (a : Address) (x : CacheEntry) (v : KeyValue) (o : Order)
    → lookup a o ≡ some x
    → move_to_front a (assign a v o) ≡ (a, record { key = x.key; value = v }) ∷ delete a o
unfolding assign
move_to_front-assign a x v o h =
    rw (h, assign)
      (move_to_front-some a _ _ (ground (arith, lookup-insert a a (record x { value = v }) o))
        ∙ ap (λ t. (a, record { key = x.key; value = v }) ∷ t) (delete-insert a _ o))

module _ (s : L1) (inv : IsLinked s) (k : String) where
  pub find : {a : Address} → lookup k s.cache ≡ some a → Found k a s.order
  find {a} h = found k a s.order inv.order_distinct inv.keys_distinct (sym (inv.linked k) ∙ h)

  pub view_absent : lookup k s.cache ≡ none → lookup k (view s.order) ≡ none
  view_absent h = lookup-view_absent k s.order (sym (inv.linked k) ∙ h)

  removed_at :
      {a : Address} (f : Found k a s.order)
      → IsLinked (record s { cache = delete k s.cache; order = delete a s.order })
  removed_at {a} f =
      subst (λ j. IsLinked (record s { cache = delete j s.cache; order = delete a s.order }))
        f.key_eq (removed-IsLinked s inv a f.entry f.here)

  pub moved_at :
      {a : Address} (f : Found k a s.order) (v : KeyValue)
      → IsLinked
          (record s { order = (a, record { key = f.entry.key; value = v }) ∷ delete a s.order })
  moved_at {a} f v = moved-IsLinked s inv a f.entry f.here v

  pub seen_first :
      {a : Address} (f : Found k a s.order) (v : KeyValue)
      → view ((a, record { key = f.entry.key; value = v }) ∷ delete a s.order)
        ≡ touch k v (view s.order)
  seen_first f v = λ i. (f.key_eq i, v) ∷ f.dropped i

  module _ (now : Time) where
    get_l1-miss : lookup k s.cache ≡ none → get_l1 now k s ≡ (none, s)
    unfolding get_l1
    get_l1-miss h = rw (h, get_l1)

    module _ (a : Address) (x : CacheEntry) (hit : lookup k s.cache ≡ some a)
        (here : lookup a s.order ≡ some x) where
      get_l1-expired :
          is_expired now x.value ≡ true
          → get_l1 now k s ≡ (none, record s { cache = delete k s.cache; order = delete a s.order })
      unfolding get_l1
      get_l1-expired h = rw (hit, here, h, get_l1)

      get_l1-hit :
          is_expired now x.value ≡ false
          → get_l1 now k s ≡ (some x.value, record s { order = (a, x) ∷ delete a s.order })
      unfolding get_l1
      get_l1-hit h = rw (hit, here, h, get_l1) (rw (move_to_front-some a x s.order here))

    -- The specification on the same branches.
    module _ (l : Lru) where
      lru_get-miss : lookup k l ≡ none → lru_get now k l ≡ (none, l)
      unfolding lru_get
      lru_get-miss h = rw (h, lru_get)

      lru_get-expired :
          (v : KeyValue)
          → lookup k l ≡ some v
          → is_expired now v ≡ true
          → lru_get now k l ≡ (none, delete k l)
      unfolding lru_get
      lru_get-expired v h e = rw (h, e, lru_get)

      lru_get-hit :
          (v : KeyValue)
          → lookup k l ≡ some v
          → is_expired now v ≡ false
          → lru_get now k l ≡ (some v, touch k v l)
      unfolding lru_get
      lru_get-hit v h e = rw (h, e, lru_get)

  -- What an operation leaves: the invariant, and the view that the specification gives.
  pub get_l1-refines :
      (now : Time)
      → IsLinked (get_l1 now k s).1
        × ((get_l1 now k s).0 ≡ (lru_get now k (view s.order)).0)
        × (view (get_l1 now k s).1.order ≡ (lru_get now k (view s.order)).1)
  get_l1-refines now = elim (Option-cases (lookup k s.cache)) [
    | inl miss ↦ rw (get_l1-miss now miss, lru_get-miss now _ (view_absent miss)) (inv, refl, refl)
    | inr (a, hit) ↦
        let f = find hit in
        elim (Bool-cases (is_expired now f.entry.value)) [
          | inl old ↦
              rw (get_l1-expired now a f.entry hit f.here old, lru_get-expired now _ _ f.seen old)
                (removed_at f, refl, f.dropped)
          | inr fresh ↦
              rw (get_l1-hit now a f.entry hit f.here fresh, lru_get-hit now _ _ f.seen fresh)
                (moved_at f f.entry.value, refl, seen_first f f.entry.value)
        ]
  ]
