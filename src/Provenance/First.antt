-- ===== src/Provenance/First.antt =====
-- The first level, gateway/l1_cache.go.
use distributed_caching.Base.{
  ◌≡◌, subst, String, [], ◌∷◌, some, lookup, delete, drop_last, string_keys, ◌==◌, lookup-delete,
  arith, eq_iff, Option-cases, Bool-cases, inl, inr, length,
}
use distributed_caching.Base.Int.{ℤ, pos, leb_ℤ}
use distributed_caching.Cache.{Bytes, KeyValue}
use distributed_caching.L1.{L1, get_l1, set_l1, clear_l1, is_expired}
use distributed_caching.L1.Evicts.{set_l1-refines}
use distributed_caching.L1.Linked.{IsLinked, view}
use distributed_caching.L1.Refines.{get_l1-refines}
use distributed_caching.L1.Spec.{Lru, lru_get, lru_set}
use distributed_caching.Time.{Time}

lookup-drop_last :
    (k : String) (l : Lru) {v : KeyValue} → lookup k (drop_last l) ≡ some v → lookup k l ≡ some v
unfolding lookup
lookup-drop_last k [] h = h
lookup-drop_last k (p ∷ []) h = cc
lookup-drop_last k ((j, u) ∷ q ∷ l) {v} h = elim (Bool-cases (j == k)) [
  | inl same ↦ rw (same, lookup) (rw (same, lookup) at h)
  | inr other ↦ rw (other, lookup) (lookup-drop_last k (q ∷ l) (rw (other, lookup) at h))
]

pub some_injective : {A : Type 0} {a b : A} → some a ≡ some b → a ≡ b
some_injective h = cc

module _ (IsFrom : String → Bytes → Type 0) where
  abbrev pub AllFrom : Lru → Type 0
  AllFrom l = (k : String) (v : KeyValue) → lookup k l ≡ some v → IsFrom k v.value

  delete-AllFrom : (k : String) (l : Lru) → AllFrom l → AllFrom (delete k l)
  delete-AllFrom k l h = λ j v e. h j v (ground (arith, lookup-delete k j l))

  cons-AllFrom :
      (k : String) (v : KeyValue) (l : Lru) → IsFrom k v.value → AllFrom l → AllFrom ((k, v) ∷ l)
  unfolding lookup
  cons-AllFrom k v l from h = λ j u e. elim (Bool-cases (k == j)) [
    | inr other ↦ h j u (rw (other, lookup) at e)
    | inl same ↦
        subst (λ w. IsFrom j w.value) (some_injective (rw (same, lookup) at e))
          (subst (λ i. IsFrom i v.value) ((eq_iff k j).0 same) from)
  ]

  lru_get-AllFrom :
      (now : Time) (k : String) (l : Lru)
      → AllFrom l
      → AllFrom (lru_get now k l).1
        × ((v : KeyValue) → (lru_get now k l).0 ≡ some v → IsFrom k v.value)
  unfolding lru_get
  lru_get-AllFrom now k l h = elim (Option-cases (lookup k l)) [
    | inl absent ↦ rw (absent, lru_get) (h, λ v e. cc)
    | inr (v, there) ↦ elim (Bool-cases (is_expired now v)) [
      | inl old ↦ rw (there, lru_get) (rw old (delete-AllFrom k l h, λ v e. cc))
      | inr fresh ↦
          rw (there, lru_get)
            (rw fresh (
              cons-AllFrom k v _ (h k v there) (delete-AllFrom k l h),
              λ u e. subst (λ w. IsFrom k w.value) (some_injective e) (h k v there),
            ))
    ]
  ]

  lru_set-AllFrom :
      (k : String) (v : KeyValue) (max : ℤ) (l : Lru)
      → IsFrom k v.value
      → AllFrom l
      → AllFrom (lru_set k v max l)
  unfolding lru_set
  lru_set-AllFrom k v max l from h = elim (Bool-cases (leb_ℤ max (pos 0))) [
    | inl off ↦ rw off h
    | inr on ↦ elim (Option-cases (lookup k l)) [
      | inr (u, there) ↦
          rw on (rw (there, lru_set) (cons-AllFrom k v _ from (delete-AllFrom k l h)))
      | inl absent ↦ elim (Bool-cases (leb_ℤ max (pos (length l)))) [
        | inl full ↦ rw on (
            rw (absent, lru_set)
              (rw full (cons-AllFrom k v _ from (λ j u e. h j u (lookup-drop_last j l e)))))
        | inr room ↦ rw on (rw (absent, lru_set) (rw room (cons-AllFrom k v l from h)))
      ]
    ]
  ]

  -- What a first level holds under a key, and what a read of it answers.
  pub get_l1-AllFrom :
      (now : Time) (k : String) (s : L1)
      → IsLinked s
      → AllFrom (view s.order)
      → IsLinked (get_l1 now k s).1
        × AllFrom (view (get_l1 now k s).1.order)
        × ((v : KeyValue) → (get_l1 now k s).0 ≡ some v → IsFrom k v.value)
  get_l1-AllFrom now k s linked h =
      let (kept, same, seen) = get_l1-refines s linked k now in
      let (all, answer) = lru_get-AllFrom now k (view s.order) h in
      (kept, rw seen all, rw same answer)

  pub set_l1-AllFrom :
      (k : String) (v : KeyValue) (max : ℤ) (s : L1)
      → IsFrom k v.value
      → IsLinked s
      → AllFrom (view s.order)
      → IsLinked (set_l1 k v max s) × AllFrom (view (set_l1 k v max s).order)
  set_l1-AllFrom k v max s from linked h =
      let (kept, seen) = set_l1-refines s linked k v max in
      (kept, rw seen (lru_set-AllFrom k v max (view s.order) from h))

  pub cleared_l1-AllFrom : (s : L1) → AllFrom (view (clear_l1 s).order)
  unfolding clear_l1 lookup
  cleared_l1-AllFrom s k v e = cc
