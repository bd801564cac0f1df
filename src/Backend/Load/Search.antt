-- ===== src/Backend/Load/Search.antt =====
-- `sort.Search` as backend/handler/load_signals.go uses it.
use distributed_caching.Base.{
  ℕ, zero, suc, ◌+◌, ◌/◌, ◌-◌, ◌≤◌, ◌≡◌, ◌⊎◌, refl, Bool, true, false, arith, ltb, Bool-cases, inl,
  inr, ap, ◌∙◌,
}
use distributed_caching.Backend.Load.{search_loop, sort_search}

-- What a search between two bounds leaves: an index at which the test turns from false to true.
pub record IsTurn (f : ℕ → Bool) (i j r : ℕ) : Type 0 where
  pub above : i ≤ r
  pub below : r ≤ j
  pub before : (i ≡ r) ⊎ (f (r - 1) ≡ false)
  pub here : (r ≡ j) ⊎ (f r ≡ true)

pub search_loop-IsTurn :
    (fuel : ℕ) (f : ℕ → Bool) (i j : ℕ)
    → i ≤ j
    → j - i ≤ fuel
    → IsTurn f i j (search_loop fuel f i j)
unfolding search_loop
search_loop-IsTurn zero f i j ordered enough = record {
  above = omega arith;
  below = omega arith;
  before = inl refl;
  here = inl (omega arith);
}
search_loop-IsTurn (suc fuel) f i j ordered enough =
    let h = (i + j) / 2 in
    elim (Bool-cases (ltb i j)) [
      | inr done ↦ rw done (record {
        above = omega arith;
        below = omega arith;
        before = inl refl;
        here = inl (ground arith);
      })
      | inl more ↦ elim (Bool-cases (f h)) [
        | inl yes_here ↦
            let r = search_loop-IsTurn fuel f i h (ground arith) (ground arith) in
            rw (more, yes_here)
              (record {
                above = r.above;
                below = ground (arith, r.below);
                before = r.before;
                here = elim r.here [ inl e ↦ inr (rw e yes_here) | inr t ↦ inr t ];
              })
        | inr not_here ↦
            let r = search_loop-IsTurn fuel f (suc h) j (ground arith) (ground arith) in
            rw (more, not_here)
              (record {
                above = ground (arith, r.above);
                below = r.below;
                before = elim r.before [
                  | inl e ↦
                      let p : search_loop fuel f (suc h) j - 1 ≡ h = omega (arith, e) in
                      inr (ap f p ∙ not_here)
                  | inr t ↦ inr t
                ];
                here = r.here;
              })
      ]
    ]

-- The fuel that `sort_search` gives is enough.
pub sort_search-IsTurn : (n : ℕ) (f : ℕ → Bool) → IsTurn f 0 n (sort_search n f)
sort_search-IsTurn n f = search_loop-IsTurn n f 0 n (omega arith) (omega arith)
