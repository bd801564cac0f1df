-- ===== src/Backend/Load/Window.antt =====
-- The window of backend/handler/load_signals.go, against a plain filter of the samples.
use distributed_caching.Base.{
  ℕ, zero, suc, ◌-◌, ◌≤◌, ◌<◌, ◌≡◌, refl, Bool, true, false, arith, if◌then◌else◌, leb, Bool-cases,
  Option-cases, inl, inr, ap, sym, subst, ◌==◌, nat_keys, leb→le, ◌∙◌, List, [], ◌∷◌, ◌++◌, All,
  length, drop, get_elem?, some, All-append,
}
use distributed_caching.Base.Tests.{==_iff}
use distributed_caching.Base.Int.{◌≤ℤ◌, ◌+ℤ◌}
use distributed_caching.Time.{Time, Duration, add}
use distributed_caching.Backend.Load.{
  LatencySample, sort_search, is_recent, is_recent_at, remove_expired_latency_samples,
  record_request_duration, minus_window,
}
use distributed_caching.Backend.Load.Search.{sort_search-IsTurn, IsTurn}

-- The items that pass a test, in order.
abbrev pub keep {ℓ} : {A : Type ℓ} → (A → Bool) → List A → List A
keep p [] = []
keep p (x ∷ xs) = if p x then x ∷ keep p xs else keep p xs

-- The samples stand in the order of their times.
abbrev pub IsOrdered : List LatencySample → Type 0
IsOrdered [] = Unit
IsOrdered (x ∷ xs) = All (λ y. x.recorded_at ≤ℤ y.recorded_at) xs × IsOrdered xs

All-get_elem? {ℓ κ} :
    {A : Type ℓ} (P : A → Type κ) (xs : List A) (i : ℕ) (y : A)
    → All P xs
    → get_elem? xs i ≡ some y
    → P y
All-get_elem? P [] i y h e = cc
All-get_elem? P (x ∷ xs) zero y h e = subst P (cc) h.0
All-get_elem? P (x ∷ xs) (suc i) y h e = All-get_elem? P xs i y h.1 e

module _ (cutoff : Time) where
  is_recent_at_mono :
      (xs : List LatencySample) (i j : ℕ)
      → IsOrdered xs
      → i ≤ j
      → is_recent_at cutoff xs j ≡ false
      → is_recent_at cutoff xs i ≡ false
  unfolding is_recent_at is_recent
  is_recent_at_mono [] i j d h e = e
  is_recent_at_mono (x ∷ xs) zero zero d h e = e
  is_recent_at_mono (x ∷ xs) zero (suc j) d h e = elim (Option-cases (get_elem? xs j)) [
    | inl absent ↦ ground arith
    | inr (y, at) ↦
        let later = All-get_elem? (λ y. x.recorded_at ≤ℤ y.recorded_at) xs j y d.0 at in
        ground arith
  ]
  is_recent_at_mono (x ∷ xs) (suc i) zero d h e = absurd (omega arith)
  is_recent_at_mono (x ∷ xs) (suc i) (suc j) d h e = is_recent_at_mono xs i j d.1 (omega arith) e

  -- To drop a prefix is to filter, if the test turns from false to true at its end.
  drop-keep :
      (xs : List LatencySample) (r : ℕ)
      → ((i : ℕ) → i < r → is_recent_at cutoff xs i ≡ false)
      → ((i : ℕ) → r ≤ i → is_recent_at cutoff xs i ≡ true)
      → drop r xs ≡ keep (is_recent cutoff) xs
  unfolding is_recent_at
  drop-keep [] zero old new = refl
  drop-keep [] (suc r) old new = refl
  drop-keep (x ∷ xs) zero old new = rw (new 0 (omega arith)) (
      ap (◌∷◌ x)
        (drop-keep xs zero (λ i h. absurd (omega arith)) (λ i h. new (suc i) (omega arith))))
  drop-keep (x ∷ xs) (suc r) old new =
      rw (old 0 (omega arith))
        (drop-keep xs r (λ i h. old (suc i) (omega arith)) (λ i h. new (suc i) (omega arith)))

  is_recent_at_end :
      (xs : List LatencySample) (i : ℕ) → length xs ≤ i → is_recent_at cutoff xs i ≡ true
  unfolding is_recent_at
  is_recent_at_end [] i h = refl
  is_recent_at_end (x ∷ xs) zero h = absurd (omega arith)
  is_recent_at_end (x ∷ xs) (suc i) h = is_recent_at_end xs i (omega arith)

  module _ (xs : List LatencySample) (d : IsOrdered xs) (r : ℕ)
      (turn : IsTurn (is_recent_at cutoff xs) 0 (length xs) r) where
    turn_old : (i : ℕ) → i < r → is_recent_at cutoff xs i ≡ false
    turn_old i h = elim turn.before [
      | inl start ↦ absurd (omega arith)
      | inr last ↦ is_recent_at_mono xs i (r - 1) d (omega arith) last
    ]

    turn_new : (i : ℕ) → r ≤ i → is_recent_at cutoff xs i ≡ true
    turn_new i h = elim (Bool-cases (is_recent_at cutoff xs i)) [
      | inl new ↦ new
      | inr old ↦
          let gone = is_recent_at_mono xs r i d h old in
          elim turn.here [
            | inl end ↦ let beyond = is_recent_at_end xs r (omega arith) in cc
            | inr new ↦ cc
          ]
    ]

drop_all {ℓ} : {A : Type ℓ} (xs : List A) (r : ℕ) → length xs ≤ r → drop r xs ≡ []
drop_all [] zero h = refl
drop_all [] (suc r) h = refl
drop_all (x ∷ xs) zero h = absurd (omega arith)
drop_all (x ∷ xs) (suc r) h = drop_all xs r (omega arith)

-- If the samples stand in the order of their times, then the binary search of
-- removeExpiredLatencySamples drops exactly the samples older than fifteen seconds.
pub remove_expired-keep :
    (now : Time) (xs : List LatencySample)
    → IsOrdered xs
    → remove_expired_latency_samples now xs ≡ keep (is_recent (add now minus_window)) xs
unfolding remove_expired_latency_samples
remove_expired-keep now xs d =
    let cutoff = add now minus_window in
    let r = sort_search (length xs) (is_recent_at cutoff xs) in
    let turn = sort_search-IsTurn (length xs) (is_recent_at cutoff xs) in
    let dropped =
      drop-keep cutoff xs r (turn_old cutoff xs d r turn) (turn_new cutoff xs d r turn) in
    elim (Bool-cases (r == 0)) [
      | inl none_old ↦ rw none_old (ap (λ n. drop n xs) (sym ((==_iff r 0).0 none_old)) ∙ dropped)
      | inr some_old ↦ elim (Bool-cases (leb (length xs) r)) [
        | inl all_old ↦ rw (some_old, all_old) (sym (drop_all xs r (leb→le _ _ all_old)) ∙ dropped)
        | inr some_new ↦ rw (some_old, some_new) dropped
      ]
    ]

keep-append {ℓ} :
    {A : Type ℓ} (p : A → Bool) (xs ys : List A) → keep p (xs ++ ys) ≡ keep p xs ++ keep p ys
keep-append p [] ys = refl
keep-append p (x ∷ xs) ys = ground (arith, keep-append p xs ys)

IsOrdered-append :
    (xs : List LatencySample) (s : LatencySample)
    → IsOrdered xs
    → All (λ x. x.recorded_at ≤ℤ s.recorded_at) xs
    → IsOrdered (xs ++ s ∷ [])
IsOrdered-append [] s d h = (tt, tt)
IsOrdered-append (x ∷ xs) s d h =
    (All-append _ xs (s ∷ []) d.0 (h.0, tt), IsOrdered-append xs s d.1 h.1)

new_kept : (s : LatencySample) → keep (is_recent (add s.recorded_at minus_window)) (s ∷ []) ≡ s ∷ []
unfolding is_recent ◌+ℤ◌
new_kept s = ground arith

keep-All {ℓ κ} :
    {A : Type ℓ} (P : A → Type κ) (p : A → Bool) (xs : List A) → All P xs → All P (keep p xs)
keep-All P p [] h = h
keep-All P p (x ∷ xs) h = elim (Bool-cases (p x)) [
  | inl passes ↦ rw passes (h.0, keep-All P p xs h.1)
  | inr fails ↦ rw fails (keep-All P p xs h.1)
]

keep-IsOrdered :
    (p : LatencySample → Bool) (xs : List LatencySample) → IsOrdered xs → IsOrdered (keep p xs)
keep-IsOrdered p [] d = d
keep-IsOrdered p (x ∷ xs) d = elim (Bool-cases (p x)) [
  | inl passes ↦ rw passes (keep-All _ p xs d.0, keep-IsOrdered p xs d.1)
  | inr fails ↦ rw fails (keep-IsOrdered p xs d.1)
]

-- If the samples stand in the order of their times and none is later than the clock, then
-- recordRequestDuration keeps exactly the samples that are at most fifteen seconds old, in order,
-- and appends the new one.
pub record_request_duration-keep :
    (now : Time) (duration : Duration) (xs : List LatencySample)
    → IsOrdered xs
    → All (λ x. x.recorded_at ≤ℤ now) xs
    → record_request_duration now duration xs
      ≡ keep (is_recent (add now minus_window)) xs
        ++ record { recorded_at = now; duration = duration } ∷ []
unfolding record_request_duration
record_request_duration-keep now duration xs d h =
    let s : LatencySample = record { recorded_at = now; duration = duration } in
    remove_expired-keep now (xs ++ s ∷ []) (IsOrdered-append xs s d h)
    ∙ keep-append (is_recent (add now minus_window)) xs (s ∷ [])
    ∙ ap (λ t. keep (is_recent (add now minus_window)) xs ++ t) (new_kept s)

-- If the samples stand in the order of their times and none is later than the clock, then the same
-- holds after recordRequestDuration.
pub record_request_duration-IsOrdered :
    (now : Time) (duration : Duration) (xs : List LatencySample)
    → IsOrdered xs
    → All (λ x. x.recorded_at ≤ℤ now) xs
    → IsOrdered (record_request_duration now duration xs)
      × All (λ x. x.recorded_at ≤ℤ now) (record_request_duration now duration xs)
record_request_duration-IsOrdered now duration xs d h =
    let s : LatencySample = record { recorded_at = now; duration = duration } in
    let p = is_recent (add now minus_window) in
    rw (record_request_duration-keep now duration xs d h) (
      IsOrdered-append (keep p xs) s (keep-IsOrdered p xs d) (keep-All _ p xs h),
      All-append _ (keep p xs) (s ∷ []) (keep-All _ p xs h) (omega arith, tt),
    )
