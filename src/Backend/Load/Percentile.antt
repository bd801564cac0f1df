-- ===== src/Backend/Load/Percentile.antt =====
-- The percentile of backend/handler/load_signals.go, against counting.
use distributed_caching.Base.{
  ℕ, zero, suc, ◌+◌, ◌-◌, ◌*◌, ◌/◌, ◌^◌, ◌≤◌, ◌<◌, ◌≡◌, refl, arith, if◌then◌else◌, Bool-cases, inl,
  inr, ap, subst, ◌∙◌, List, [], ◌∷◌, All, length, get_elem?, some,
}
use distributed_caching.Base.Int.{pos, ◌≤ℤ◌, ◌-ℤ◌, leb_ℤ, ltb_ℤ, pos_part}
use distributed_caching.Floats.{Floats, FloatValues}
use distributed_caching.Time.{Duration}
use distributed_caching.Backend.Load.{
  insert_sorted, sort_durations, p99_rank, p99_index, p99_duration,
}

-- How many durations are at most, and less than, a given one.
abbrev pub count_le : Duration → List Duration → ℕ
count_le d [] = 0
count_le d (x ∷ xs) = if leb_ℤ x d then suc (count_le d xs) else count_le d xs

abbrev pub count_lt : Duration → List Duration → ℕ
count_lt d [] = 0
count_lt d (x ∷ xs) = if ltb_ℤ x d then suc (count_lt d xs) else count_lt d xs

abbrev IsAscending : List Duration → Type 0
IsAscending [] = Unit
IsAscending (x ∷ xs) = All (λ y. x ≤ℤ y) xs × IsAscending xs

module _ (d : Duration) where
  count_le-insert :
      (x : Duration) (xs : List Duration) → count_le d (insert_sorted x xs) ≡ count_le d (x ∷ xs)
  unfolding insert_sorted
  count_le-insert x [] = refl
  count_le-insert x (y ∷ ys) = ground (arith, count_le-insert x ys)

  count_le-sort : (xs : List Duration) → count_le d (sort_durations xs) ≡ count_le d xs
  unfolding sort_durations
  count_le-sort [] = refl
  count_le-sort (x ∷ xs) =
      count_le-insert x (sort_durations xs)
      ∙ ap (λ n. if leb_ℤ x d then suc n else n) (count_le-sort xs)

  count_lt-insert :
      (x : Duration) (xs : List Duration) → count_lt d (insert_sorted x xs) ≡ count_lt d (x ∷ xs)
  unfolding insert_sorted
  count_lt-insert x [] = refl
  count_lt-insert x (y ∷ ys) = ground (arith, count_lt-insert x ys)

  count_lt-sort : (xs : List Duration) → count_lt d (sort_durations xs) ≡ count_lt d xs
  unfolding sort_durations
  count_lt-sort [] = refl
  count_lt-sort (x ∷ xs) =
      count_lt-insert x (sort_durations xs)
      ∙ ap (λ n. if ltb_ℤ x d then suc n else n) (count_lt-sort xs)

length-insert : (x : Duration) (xs : List Duration) → length (insert_sorted x xs) ≡ suc (length xs)
unfolding insert_sorted
length-insert x [] = refl
length-insert x (y ∷ ys) = ground (arith, length-insert x ys)

length-sort : (xs : List Duration) → length (sort_durations xs) ≡ length xs
unfolding sort_durations
length-sort [] = refl
length-sort (x ∷ xs) = length-insert x (sort_durations xs) ∙ ap suc (length-sort xs)

All-insert :
    (b x : Duration) (xs : List Duration)
    → b ≤ℤ x
    → All (λ y. b ≤ℤ y) xs
    → All (λ y. b ≤ℤ y) (insert_sorted x xs)
unfolding insert_sorted
All-insert b x [] h k = (h, tt)
All-insert b x (y ∷ ys) h k = ground (arith, All-insert b x ys)

All-le :
    (b x : Duration) (xs : List Duration) → b ≤ℤ x → All (λ y. x ≤ℤ y) xs → All (λ y. b ≤ℤ y) xs
All-le b x [] h k = tt
All-le b x (y ∷ ys) h k = (omega arith, All-le b x ys h k.1)

insert-IsAscending :
    (x : Duration) (xs : List Duration) → IsAscending xs → IsAscending (insert_sorted x xs)
unfolding insert_sorted
insert-IsAscending x [] h = (tt, tt)
insert-IsAscending x (y ∷ ys) h = elim (Bool-cases (leb_ℤ x y)) [
  | inl below ↦ rw below ((ground arith, All-le x y ys (ground arith) h.0), h)
  | inr above ↦ rw above (All-insert y x ys (ground arith) h.0, insert-IsAscending x ys h.1)
]

sort-IsAscending : (xs : List Duration) → IsAscending (sort_durations xs)
unfolding sort_durations
sort-IsAscending [] = tt
sort-IsAscending (x ∷ xs) = insert-IsAscending x (sort_durations xs) (sort-IsAscending xs)

-- In an ascending list the item at `i` has `i` items before it, and none after it is less.
count_lt-above : (d : Duration) (xs : List Duration) → All (λ y. d ≤ℤ y) xs → count_lt d xs ≡ 0
count_lt-above d [] h = refl
count_lt-above d (x ∷ xs) h = ground (arith, count_lt-above d xs h.1)

All-get_elem? :
    (b : Duration) (xs : List Duration) (i : ℕ) (d : Duration)
    → All (λ y. b ≤ℤ y) xs
    → get_elem? xs i ≡ some d
    → b ≤ℤ d
All-get_elem? b [] i d h e = cc
All-get_elem? b (x ∷ xs) zero d h e = ground arith
All-get_elem? b (x ∷ xs) (suc i) d h e = All-get_elem? b xs i d h.1 e

count_le-at :
    (xs : List Duration) (i : ℕ) (d : Duration)
    → IsAscending xs
    → get_elem? xs i ≡ some d
    → i < count_le d xs
count_le-at [] i d h e = cc
count_le-at (x ∷ xs) zero d h e = ground arith
count_le-at (x ∷ xs) (suc i) d h e =
    ground (arith, count_le-at xs i d h.1 e, All-get_elem? x xs i d h.0 e)

count_lt-at :
    (xs : List Duration) (i : ℕ) (d : Duration)
    → IsAscending xs
    → get_elem? xs i ≡ some d
    → count_lt d xs ≤ i
count_lt-at [] i d h e = cc
count_lt-at (x ∷ xs) zero d h e =
    let p : x ≡ d = cc in
    ground (arith, count_lt-above d xs (subst (λ t. All (λ y. t ≤ℤ y) xs) p h.0))
count_lt-at (x ∷ xs) (suc i) d h e = ground (arith, count_lt-at xs i d h.1 e)

get_elem?-below {ℓ} :
    {A : Type ℓ} (xs : List A) (i : ℕ) → i < length xs → (x : A) × (get_elem? xs i ≡ some x)
get_elem?-below [] i h = absurd (omega arith)
get_elem?-below (x ∷ xs) zero h = (x, refl)
get_elem?-below (x ∷ xs) (suc i) h = get_elem?-below xs i (omega arith)

times_mono : (a b n : ℕ) → a ≤ b → a * n ≤ b * n
times_mono a b zero h = omega arith
times_mono a b (suc n) h = omega (arith, times_mono a b n h)

module _ {Float : Type 0} (o : Floats Float) (v : FloatValues o) where
  open v use {num, unit}

  -- What 0.99 times a count is worth before it is rounded, from the facts about 0.99.
  product_le : (n : ℕ) → 100 * (num (o.decimal 99 2) * n) ≤ 99 * (n * unit)
  product_le n =
      omega (arith, times_mono (100 * num (o.decimal 99 2)) (99 * unit) n v.decimal_99_le)

  product_ge :
      (n : ℕ) → 99 * (n * unit) * 2 ^ 40 ≤ 100 * (num (o.decimal 99 2) * n) * 2 ^ 40 + n * unit
  product_ge n = omega (
    arith,
    times_mono (99 * unit * 2 ^ 40) (100 * num (o.decimal 99 2) * 2 ^ 40 + unit) n v.decimal_99_ge,
  )

  p99_rank-between :
      (n j : ℕ)
      → n < 2 ^ 32
      → 100 * j + 1 ≤ 99 * n
      → 99 * n ≤ 100 * suc j
      → p99_rank o n ≡ pos (suc j)
  unfolding p99_rank
  p99_rank-between n j small low high =
      let few = times_mono n (2 ^ 32) unit (omega arith) in
      let from = times_mono (100 * j + 1) (99 * n) unit low in
      let to = times_mono (99 * n) (100 * suc j) unit high in
      let above =
        v.mul_ge 99 2 n (128 * j + 1) (omega arith) (omega arith)
          (omega (arith, product_ge n, few, from)) in
      let below =
        v.mul_le 99 2 n (128 * suc j) (omega arith) (omega arith)
          (omega (arith, product_le n, to)) in
      v.to_int_ceil _ (suc j) (omega arith) (omega arith) (omega (arith, v.unit_pos, above))
        (omega (arith, below))

  p99_rank-exact : (n : ℕ) → 0 < n → n < 2 ^ 32 → p99_rank o n ≡ pos ((99 * n + 99) / 100)
  p99_rank-exact n h small =
      let j = (99 * n + 99) / 100 - 1 in
      p99_rank-between n j small (omega arith) (omega arith) ∙ ap (λ r. pos r) (omega arith)

  p99_index-exact : (n : ℕ) → 0 < n → n < 2 ^ 32 → p99_index o n ≡ pos ((99 * n + 99) / 100 - 1)
  unfolding p99_index ◌-ℤ◌
  p99_index-exact n h small = rw (p99_rank-exact n h small) (ground arith)

  -- With floats whose products and roundings up obey the laws of float64, for at least one and
  -- fewer than 2 ^ 32 durations the reported duration exists, at least 99 of 100 durations are at
  -- most it, and fewer than 99 of 100 are less than it.
  pub p99_duration-IsPercentile :
      (ds : List Duration)
      → 0 < length ds
      → length ds < 2 ^ 32
      → (d : Duration) × (p99_duration o ds ≡ some d)
        × (99 * length ds ≤ 100 * count_le d ds)
        × (100 * count_lt d ds < 99 * length ds)
  unfolding p99_duration
  p99_duration-IsPercentile ds h small =
      let n = length ds in
      let i = (99 * n + 99) / 100 - 1 in
      let index = p99_index-exact n h small in
      let sorted = sort_durations ds in
      let (d, at) = get_elem?-below sorted i (omega (arith, length-sort ds)) in
      (
        d,
        ap (λ t. get_elem? sorted (pos_part t)) index ∙ at,
        omega (arith, count_le-at sorted i d (sort-IsAscending ds) at, count_le-sort d ds),
        omega (arith, count_lt-at sorted i d (sort-IsAscending ds) at, count_lt-sort d ds),
      )
