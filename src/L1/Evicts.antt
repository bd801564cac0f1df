-- ===== src/L1/Evicts.antt =====
-- `setL1` and `removeL1LRU` of gateway/l1_cache.go implement the abstract cache of `L1.Spec`.
use distributed_caching.Base.{
  true, false, ◌≡◌, refl, ap, String, List, [], ◌∷◌, none, some, length, lookup, delete, drop_last,
  last?, if◌then◌else◌, string_keys, nat_keys, arith, inl, inr, Option-cases, Bool-cases,
  lookup-delete,
}
use distributed_caching.Base.Int.{ℤ, pos, leb_ℤ}
use distributed_caching.Cache.{KeyValue}
use distributed_caching.L1.{L1, Address, set_l1, remove_l1_lru, push_l1}
use distributed_caching.L1.Linked.{IsLinked, view, Found}
use distributed_caching.L1.Keeps.{removed-IsLinked, push_l1-IsLinked, lookup-last, view-delete_last}
use distributed_caching.L1.Refines.{
  length-view, move_to_front-assign, moved_at, seen_first, find, view_absent,
}
use distributed_caching.L1.Spec.{lru_set}

last?-nil {ℓ} : {A : Type ℓ} (o : List A) → last? o ≡ none → o ≡ []
last?-nil [] h = refl
last?-nil (p ∷ []) h = cc
last?-nil (p ∷ q ∷ o) h = let ih = last?-nil (q ∷ o) h in cc

-- The eviction drops the last entry of the view.
remove_l1_lru-refines :
    (s : L1)
    → IsLinked s
    → IsLinked (remove_l1_lru s) × (view (remove_l1_lru s).order ≡ drop_last (view s.order))
unfolding remove_l1_lru
remove_l1_lru-refines s inv = elim (Option-cases (last? s.order)) [
  | inl none_left ↦ rw (none_left, remove_l1_lru) (inv, rw (last?-nil s.order none_left) refl)
  | inr ((a, x), back) ↦
      let here = lookup-last a x s.order inv.order_distinct back in
      rw (back, remove_l1_lru)
        (removed-IsLinked s inv a x here, view-delete_last a x s.order inv.order_distinct back)
]

module _ (s : L1) (inv : IsLinked s) (k : String) (v : KeyValue) (max_entries : ℤ) where
  set_l1-off : leb_ℤ max_entries (pos 0) ≡ true → set_l1 k v max_entries s ≡ s
  unfolding set_l1
  set_l1-off h = rw (h, set_l1)

  set_l1-old :
      (f : (a : Address) × Found k a s.order)
      → leb_ℤ max_entries (pos 0) ≡ false
      → lookup k s.cache ≡ some f.0
      → set_l1 k v max_entries s
        ≡ record s { order = (f.0, record { key = f.1.entry.key; value = v }) ∷ delete f.0 s.order }
  unfolding set_l1
  set_l1-old (a, f) h hit =
      rw (h, hit, set_l1) (rw (move_to_front-assign a f.entry v s.order f.here))

  -- The state in which the new element is pushed.
  roomy : L1
  roomy = if leb_ℤ max_entries (pos (length s.cache)) then remove_l1_lru s else s

  set_l1-new :
      leb_ℤ max_entries (pos 0) ≡ false
      → lookup k s.cache ≡ none
      → set_l1 k v max_entries s ≡ push_l1 k v roomy
  unfolding set_l1 roomy
  set_l1-new h miss = rw (h, miss, set_l1)

  roomy-lookup : lookup k s.cache ≡ none → lookup k roomy.cache ≡ none
  unfolding roomy remove_l1_lru
  roomy-lookup miss = elim (Bool-cases (leb_ℤ max_entries (pos (length s.cache)))) [
    | inr room ↦ rw room miss
    | inl full ↦ rw full (elim (Option-cases (last? s.order)) [
      | inl nothing ↦ rw (nothing, remove_l1_lru) miss
      | inr ((a, x), back) ↦
          rw (back, remove_l1_lru) (ground (arith, lookup-delete x.key k s.cache))
    ])
  ]

  roomy-refines :
      IsLinked roomy
      × (view roomy.order ≡ (
          if leb_ℤ max_entries (pos (length (view s.order)))
          then drop_last (view s.order)
          else view s.order))
  unfolding roomy
  roomy-refines =
      rw (length-view s.order, ← inv.size)
        (elim (Bool-cases (leb_ℤ max_entries (pos (length s.cache)))) [
          | inl full ↦ rw full (remove_l1_lru-refines s inv)
          | inr room ↦ rw room (inv, refl)
        ])

  pub set_l1-refines :
      IsLinked (set_l1 k v max_entries s)
      × (view (set_l1 k v max_entries s).order ≡ lru_set k v max_entries (view s.order))
  unfolding lru_set push_l1
  set_l1-refines = elim (Bool-cases (leb_ℤ max_entries (pos 0))) [
    | inl off ↦ rw (set_l1-off off, off, lru_set) (inv, refl)
    | inr on ↦ elim (Option-cases (lookup k s.cache)) [
      | inl miss ↦
          rw (set_l1-new on miss, on, view_absent s inv k miss, lru_set)
            (
              push_l1-IsLinked k v roomy roomy-refines.0 (roomy-lookup miss),
              ap (λ t. (k, v) ∷ t) roomy-refines.1,
            )
      | inr (a, hit) ↦
          let f = find s inv k hit in
          rw (set_l1-old (a, f) on hit, on, f.seen, lru_set)
            (moved_at s inv k f v, seen_first s inv k f v)
    ]
  ]
