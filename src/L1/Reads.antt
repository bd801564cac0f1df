-- ===== src/L1/Reads.antt =====
-- What `getL1` reads after `setL1`.
use distributed_caching.Base.{
  ◌≡◌, refl, ◌∙◌, sym, ◌≢◌, String, [], ◌∷◌, Option, none, some, length, arith, false, drop_last,
  last?, if◌then◌else◌, string_keys, nat_keys, lookup, delete, lookup-delete, Option-cases, inl,
  inr, Bool-cases, eq_iff,
}
use distributed_caching.Base.Int.{ℤ, pos, leb_ℤ, ◌<ℤ◌}
use distributed_caching.Cache.{KeyValue}
use distributed_caching.L1.{L1, get_l1, set_l1, is_expired}
use distributed_caching.L1.Linked.{IsLinked, view}
use distributed_caching.L1.Refines.{get_l1-refines}
use distributed_caching.L1.Spec.{Lru, lru_get, lru_set}
use distributed_caching.L1.Evicts.{set_l1-refines}
use distributed_caching.Time.{Time}

-- The value at a key, unless it has expired.
unfoldable pub live : Time → String → Lru → Option KeyValue
live now k l = elim (lookup k l) [
  | none ↦ none
  | some v ↦ if is_expired now v then none else some v
]

lru_get-live : (now : Time) (k : String) (l : Lru) → (lru_get now k l).0 ≡ live now k l
unfolding lru_get live
lru_get-live now k l = ground arith

-- The key that `setL1` evicts: the least recently used one, if the key is new and the cache full.
unfoldable pub victim : String → ℤ → Lru → Option String
victim k m l = elim (lookup k l) [
  | some _ ↦ none
  | none ↦
      if leb_ℤ m (pos (length l))
      then elim (last? l) [ none ↦ none | some (j, _) ↦ some j ]
      else none
]

lookup-drop_last :
    (j : String) (l : Lru)
    → ((v : KeyValue) → last? l ≢ some (j, v))
    → lookup j (drop_last l) ≡ lookup j l
unfolding lookup
lookup-drop_last j [] h = refl
lookup-drop_last j ((i, w) ∷ []) h = ground (arith, eq_iff i j, h w)
lookup-drop_last j ((i, w) ∷ p ∷ l) h = ground (arith, lookup-drop_last j (p ∷ l) h)

lookup-cons_ne :
    (k j : String) (v : KeyValue) (l : Lru) → k ≢ j → lookup j ((k, v) ∷ l) ≡ lookup j l
unfolding lookup
lookup-cons_ne k j v l apart = ground (arith, eq_iff k j)

lru_set-lookup_ne :
    (k j : String) (v : KeyValue) (m : ℤ) (l : Lru)
    → k ≢ j
    → victim k m l ≢ some j
    → lookup j (lru_set k v m l) ≡ lookup j l
unfolding lru_set victim
lru_set-lookup_ne k j v m l apart kept = elim (Bool-cases (leb_ℤ m (pos 0))) [
  | inl off ↦ rw (off, lru_set) refl
  | inr on ↦ elim (Option-cases (lookup k l)) [
    | inr (w, hit) ↦
        rw (on, hit, lru_set)
          (lookup-cons_ne k j v (delete k l) apart
            ∙ ground (arith, lookup-delete k j l, eq_iff k j))
    | inl miss ↦
        rw (on, miss, lru_set)
          (lookup-cons_ne k j v _ apart ∙ elim (Bool-cases (leb_ℤ m (pos (length l)))) [
            | inr room ↦ rw room refl
            | inl full ↦
                rw full (lookup-drop_last j l (λ w q. kept (rw (miss, full, q, victim) refl)))
          ])
  ]
]

lru_set-lookup_self :
    (k : String) (v : KeyValue) (m : ℤ) (l : Lru) → pos 0 <ℤ m → lookup k (lru_set k v m l) ≡ some v
unfolding lru_set lookup
lru_set-lookup_self k v m l h = ground (arith, eq_iff k k)

module _ (s : L1) (inv : IsLinked s) (now : Time) where
  get_l1-live : (j : String) → (get_l1 now j s).0 ≡ live now j (view s.order)
  get_l1-live j = (get_l1-refines s inv j now).1 ∙ lru_get-live now j (view s.order)

module _ (s : L1) (inv : IsLinked s) (now : Time) where
  module _ (k : String) (v : KeyValue) (m : ℤ) where
    -- In a linked cache, with a limit above zero, a value that setL1 stores and that has not
    -- expired is read back by getL1 of its key.
    pub get_l1-set_l1_self :
        pos 0 <ℤ m → is_expired now v ≡ false → (get_l1 now k (set_l1 k v m s)).0 ≡ some v
    unfolding live
    get_l1-set_l1_self h fresh =
        let (keeps, after) = set_l1-refines s inv k v m in
        get_l1-live (set_l1 k v m s) keeps now k
        ∙ rw after (rw (lru_set-lookup_self k v m (view s.order) h, fresh, live) refl)

    -- In a linked cache, for another key than the one that setL1 stores and than the one it
    -- evicts, getL1 answers after the setL1 what it answered before.
    pub get_l1-set_l1_ne :
        (j : String)
        → k ≢ j
        → victim k m (view s.order) ≢ some j
        → (get_l1 now j (set_l1 k v m s)).0 ≡ (get_l1 now j s).0
    unfolding live
    get_l1-set_l1_ne j apart kept =
        let (keeps, after) = set_l1-refines s inv k v m in
        get_l1-live (set_l1 k v m s) keeps now j
        ∙ rw after (rw (lru_set-lookup_ne k j v m (view s.order) apart kept, live) refl)
        ∙ sym (get_l1-live s inv now j)
