-- ===== src/Base/Totals.antt =====
-- Sums of weights over the values of a map.
use Prim.Native.Nat.{ℕ, ◌+◌, ◌<◌}
use mathlib.Core.List.{List, [], ◌∷◌}
use mathlib.Core.Option.{none, some}
use mathlib.Core.Path.{◌≡◌}
use native.Mathlib.Decide.{dec_lt}
use native.Mathlib.Omega.{arith}
use distributed_caching.Base.Assoc.{lookup, insert, delete, Distinct, delete_absent}
use distributed_caching.Base.Keys.{Keys}
use distributed_caching.Base.Lists.{length}

module _ {ℓ κ} {K : Type ℓ} {V : Type κ} ⦃e : Keys K⦄ where
  pub length-insert_present :
      (k : K) (v old : V) (m : List (K × V))
      → lookup k m ≡ some old
      → length (insert k v m) ≡ length m
  unfolding lookup insert
  length-insert_present k v old [] h = cc
  length-insert_present k v old ((j, y) ∷ m) h = ground (arith, length-insert_present k v old m)

  module _ (weight : V → ℕ) where
    abbrev pub total : List (K × V) → ℕ
    total [] = 0
    total ((k, v) ∷ m) = weight v + total m

    pub total-insert_absent :
        (k : K) (v : V) (m : List (K × V))
        → lookup k m ≡ none
        → total (insert k v m) ≡ total m + weight v
    unfolding lookup insert
    total-insert_absent k v [] h = omega arith
    total-insert_absent k v ((j, y) ∷ m) h = ground (arith, total-insert_absent k v m)

    pub total-insert_present :
        (k : K) (v old : V) (m : List (K × V))
        → lookup k m ≡ some old
        → total (insert k v m) + weight old ≡ total m + weight v
    unfolding lookup insert
    total-insert_present k v old [] h = cc
    total-insert_present k v old ((j, y) ∷ m) h = ground (arith, total-insert_present k v old m)

    pub total-delete :
        (k : K) (old : V) (m : List (K × V))
        → Distinct m
        → lookup k m ≡ some old
        → total (delete k m) + weight old ≡ total m
    unfolding lookup delete
    total-delete k old [] d h = cc
    total-delete k old ((j, y) ∷ m) d h =
        ground (arith, e.same_iff j k, delete_absent k m, total-delete k old m)

    -- A sum above zero has a value that counts.
    pub total_pos :
        (m : List (K × V))
        → Distinct m
        → 0 < total m
        → (k : K) × (v : V) × (lookup k m ≡ some v) × (0 < weight v)
    unfolding lookup
    total_pos [] d h = absurd (omega arith)
    total_pos ((j, y) ∷ m) d h = elim (dec_lt 0 (weight y)) [
      | yes here ↦ (j, y, ground (arith, e.same_iff j j), here)
      | no zero_here ↦
          let (k, v, found, counts) = total_pos m d.1 (omega arith) in
          (k, v, ground (arith, e.same_iff j k), counts)
    ]
