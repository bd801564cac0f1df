-- ===== src/Base/Assoc.antt =====
-- Go's maps, and containers addressed by an identifier, as association lists.
use Prim.Native.Nat.{◌+◌}
use mathlib.Core.List.{List, [], ◌∷◌}
use mathlib.Core.Logic.{◌≢◌, inl, inr}
use mathlib.Core.Option.{Option, none, some}
use mathlib.Core.Path.{◌≡◌, refl, subst}
use native.Mathlib.Omega.{arith}
use distributed_caching.Base.Keys.{Keys, ◌==◌}
use distributed_caching.Base.Lists.{length}
use distributed_caching.Base.Tests.{if◌then◌else◌, Bool-cases}

module _ {ℓ κ} {K : Type ℓ} {V : Type κ} ⦃e : Keys K⦄ where
  -- `x, ok := m[k]`
  unfoldable pub lookup : K → List (K × V) → Option V
  lookup key [] = none
  lookup key ((here, x) ∷ rest) = if here == key then some x else lookup key rest

  -- `delete(m, k)`
  unfoldable pub delete : K → List (K × V) → List (K × V)
  delete k [] = []
  delete k ((j, w) ∷ m) = let rest = delete k m in if j == k then rest else (j, w) ∷ rest

  -- `m[k] = v`: in place for a key that is there, else a new entry.
  unfoldable pub insert : K → V → List (K × V) → List (K × V)
  insert key x [] = (key, x) ∷ []
  insert key x ((here, y) ∷ rest) =
      if here == key then (key, x) ∷ rest else (here, y) ∷ insert key x rest

  -- No key stands twice.
  abbrev pub Distinct : List (K × V) → Type κ
  Distinct [] = Unit
  Distinct ((k, v) ∷ m) = (lookup k m ≡ none) × Distinct m

  pub lookup-delete :
      (k j : K) (m : List (K × V)) → lookup j (delete k m) ≡ (if k == j then none else lookup j m)
  unfolding lookup delete
  lookup-delete k j [] = ground arith
  lookup-delete k j ((i, w) ∷ m) =
      ground (arith, e.same_iff k j, e.same_iff i k, e.same_iff i j, lookup-delete k j m)

  pub lookup-insert :
      (k j : K) (v : V) (m : List (K × V))
      → lookup j (insert k v m) ≡ (if k == j then some v else lookup j m)
  unfolding lookup insert
  lookup-insert k j v [] = refl
  lookup-insert k j v ((here, y) ∷ rest) =
      ground (arith, lookup-insert k j v rest, e.same_iff here j, e.same_iff here k, e.same_iff k j)

  pub lookup-insert_self : (k : K) (v : V) (m : List (K × V)) → lookup k (insert k v m) ≡ some v
  lookup-insert_self k v m = ground (arith, lookup-insert k k v m, e.same_iff k k)

  pub delete_absent : (k : K) (m : List (K × V)) → lookup k m ≡ none → delete k m ≡ m
  unfolding lookup delete
  delete_absent k [] h = refl
  delete_absent k ((i, w) ∷ m) h = ground (arith, delete_absent k m)

  pub length-delete :
      (k : K) (v : V) (m : List (K × V))
      → Distinct m
      → lookup k m ≡ some v
      → length (delete k m) + 1 ≡ length m
  unfolding lookup delete
  length-delete k v [] d h = ground arith
  length-delete k v ((i, w) ∷ m) d h =
      ground (arith, e.same_iff i k, delete_absent k m, length-delete k v m)

  pub length-insert_new :
      (k : K) (v : V) (m : List (K × V)) → lookup k m ≡ none → length (insert k v m) ≡ length m + 1
  unfolding lookup insert
  length-insert_new k v [] h = omega arith
  length-insert_new k v ((i, w) ∷ m) h = ground (arith, length-insert_new k v m)

  pub delete-Distinct : (k : K) (m : List (K × V)) → Distinct m → Distinct (delete k m)
  unfolding delete
  delete-Distinct k [] d = tt
  delete-Distinct k ((i, w) ∷ m) d = ground (arith, lookup-delete k i m, delete-Distinct k m)

  pub insert-Distinct : (k : K) (v : V) (m : List (K × V)) → Distinct m → Distinct (insert k v m)
  unfolding lookup insert
  insert-Distinct k v [] d = (refl, tt)
  insert-Distinct k v ((i, w) ∷ m) d =
      ground (arith, e.same_iff i k, e.same_iff k i, lookup-insert k i v m, insert-Distinct k v m)

  pub delete-insert : (k : K) (v : V) (m : List (K × V)) → delete k (insert k v m) ≡ delete k m
  unfolding delete insert
  delete-insert k v [] = ground (arith, e.same_iff k k)
  delete-insert k v ((i, w) ∷ m) = ground (arith, e.same_iff k k, delete-insert k v m)

  pub delete-cons_ne :
      (k i : K) (w : V) (m : List (K × V)) → i ≢ k → delete k ((i, w) ∷ m) ≡ (i, w) ∷ delete k m
  unfolding delete
  delete-cons_ne k i w m h = ground (arith, e.same_iff i k)

  pub delete-cons_self : (k : K) (w : V) (m : List (K × V)) → delete k ((k, w) ∷ m) ≡ delete k m
  unfolding delete
  delete-cons_self k w m = ground (arith, e.same_iff k k)

  -- Every value that a key has satisfies the predicate.
  abbrev pub Everywhere {μ} : (V → Type μ) → List (K × V) → Type (ℓ ⊔ κ ⊔ μ)
  Everywhere P m = (k : K) (v : V) → lookup k m ≡ some v → P v

  pub Everywhere-map {μ ν} :
      (P : V → Type μ) (Q : V → Type ν) (m : List (K × V))
      → ((v : V) → P v → Q v)
      → Everywhere P m
      → Everywhere Q m
  Everywhere-map P Q m f h = λ k v e. f v (h k v e)

  pub Everywhere-insert {μ} :
      (P : V → Type μ) (k : K) (v : V) (m : List (K × V))
      → P v
      → Everywhere P m
      → Everywhere P (insert k v m)
  Everywhere-insert P k v m here h = λ j w found. elim (Bool-cases (k == j)) [
    | inl same ↦ subst P (ground (arith, lookup-insert k j v m)) here
    | inr other ↦ h j w (ground (arith, lookup-insert k j v m))
  ]

  pub Everywhere-delete {μ} :
      (P : V → Type μ) (k : K) (m : List (K × V)) → Everywhere P m → Everywhere P (delete k m)
  Everywhere-delete P k m h = λ j w found. h j w (ground (arith, lookup-delete k j m))
