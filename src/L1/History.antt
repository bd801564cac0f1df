-- ===== src/L1/History.antt =====
-- Runs of the operations of gateway/l1_cache.go, in any order.
use distributed_caching.Base.{
  ℕ, ◌∙◌, ◌≤◌, ◌≡◌, refl, ap, String, List, [], ◌∷◌, Option, length, All, arith, length-drop_last,
  string_keys, nat_keys, lookup, Distinct, length-delete, Option-cases, inl, inr, Bool-cases,
}
use distributed_caching.Base.Int.{ℤ, pos, ◌≤ℤ◌}
use distributed_caching.Cache.{KeyValue}
use distributed_caching.L1.{L1, get_l1, set_l1, clear_l1, empty, is_expired}
use distributed_caching.L1.Linked.{IsLinked, view}
use distributed_caching.L1.Keeps.{clear_l1-IsLinked}
use distributed_caching.L1.Spec.{Lru, lru_get, lru_set}
use distributed_caching.L1.Refines.{get_l1-refines, length-view}
use distributed_caching.L1.Evicts.{set_l1-refines}
use distributed_caching.Time.{Time}

pub data Call : Type 0 where
  get : Time → String → Call
  set : String → KeyValue → ℤ → Call
  clear : Call

-- The state after the calls, and what each `get` returned.
unfoldable pub run : List Call → L1 → L1 × List (Option KeyValue)
run [] s = (s, [])
run (get now k ∷ calls) s =
    let (found, t) = get_l1 now k s in let (u, rest) = run calls t in (u, found ∷ rest)
run (set k v max_entries ∷ calls) s = run calls (set_l1 k v max_entries s)
run (clear ∷ calls) s = run calls (clear_l1 s)

unfoldable pub lru_run : List Call → Lru → Lru × List (Option KeyValue)
lru_run [] l = (l, [])
lru_run (get now k ∷ calls) l =
    let (found, t) = lru_get now k l in let (u, rest) = lru_run calls t in (u, found ∷ rest)
lru_run (set k v max_entries ∷ calls) l = lru_run calls (lru_set k v max_entries l)
lru_run (clear ∷ calls) l = lru_run calls []

pub record Agrees (s : L1) (l : Lru) : Type 0 where
  pub linked : IsLinked s
  pub seen : view s.order ≡ l

-- From states that agree, the cache and its specification return the same at every `get`.
pub run-refines :
    (calls : List Call) (s : L1) (l : Lru)
    → Agrees s l
    → Agrees (run calls s).0 (lru_run calls l).0 × ((run calls s).1 ≡ (lru_run calls l).1)
unfolding run lru_run clear_l1
run-refines [] s l h = (h, refl)
run-refines (get now k ∷ calls) s l h =
    let (keeps, same, after) = get_l1-refines s h.linked k now in
    let ih =
      run-refines calls (get_l1 now k s).1 (lru_get now k l).1
        (record { linked = keeps; seen = after ∙ ap (λ t. (lru_get now k t).1) h.seen }) in
    (ih.0, λ i. (same ∙ ap (λ t. (lru_get now k t).0) h.seen) i ∷ ih.1 i)
run-refines (set k v m ∷ calls) s l h =
    let (keeps, after) = set_l1-refines s h.linked k v m in
    run-refines calls _ _
      (record { linked = keeps; seen = after ∙ ap (λ t. lru_set k v m t) h.seen })
run-refines (clear ∷ calls) s l h =
    run-refines calls (clear_l1 s) [] (record { linked = clear_l1-IsLinked s; seen = refl })

-- For every list of calls of getL1, setL1 and clearL1 on the empty cache, each getL1 answers what
-- the abstract list of keys and values (most recently used first) answers, the map and the list
-- stay linked, and the list shows the abstract state.
pub run-refines_empty :
    (calls : List Call)
    → IsLinked (run calls empty).0
      × ((run calls empty).1 ≡ (lru_run calls []).1)
      × (view (run calls empty).0.order ≡ (lru_run calls []).0)
unfolding clear_l1
run-refines_empty calls =
    let (agrees, same) =
      run-refines calls empty [] (record { linked = clear_l1-IsLinked empty; seen = refl }) in
    (agrees.linked, same, agrees.seen)

lru_get-bound :
    (now : Time) (k : String) (l : Lru) → Distinct l → length (lru_get now k l).1 ≤ length l
unfolding lru_get
lru_get-bound now k l d = elim (Option-cases (lookup k l)) [
  | inl miss ↦ rw (miss, lru_get) (omega arith)
  | inr (v, hit) ↦ elim (Bool-cases (is_expired now v)) [
    | inl old ↦ rw (hit, old, lru_get) (omega (arith, length-delete k v l d hit))
    | inr fresh ↦ rw (hit, fresh, lru_get) (omega (arith, length-delete k v l d hit))
  ]
]

lru_set-bound :
    (k : String) (v : KeyValue) (m : ℤ) (cap : ℕ) (l : Lru)
    → Distinct l
    → m ≤ℤ pos cap
    → length l ≤ cap
    → length (lru_set k v m l) ≤ cap
unfolding lru_set
lru_set-bound k v m cap l d below h = elim (Option-cases (lookup k l)) [
  | inl miss ↦ rw (miss, lru_set) (ground (arith, length-drop_last l))
  | inr (w, hit) ↦ rw (hit, lru_set) (ground (arith, length-delete k w l d hit))
]

-- Every `setL1` of the history has a limit of at most `cap`.
abbrev pub Within : ℕ → Call → Type 0
Within cap (get now k) = Unit {0}
Within cap (set k v m) = m ≤ℤ pos cap
Within cap clear = Unit {0}

-- From linked maps and lists with at most cap entries, any list of calls in which every setL1 has
-- a limit of at most cap ends with at most cap entries.
pub run-bound :
    (cap : ℕ) (calls : List Call) (s : L1)
    → IsLinked s
    → length s.cache ≤ cap
    → All (Within cap) calls
    → length (run calls s).0.cache ≤ cap
unfolding run clear_l1
run-bound cap [] s inv h w = h
run-bound cap (get now k ∷ calls) s inv h w =
    let (keeps, same, after) = get_l1-refines s inv k now in
    run-bound cap calls (get_l1 now k s).1 keeps
      (omega (
        arith,
        lru_get-bound now k (view s.order) inv.keys_distinct,
        ap (λ (t : Lru). length t) after,
        length-view s.order,
        length-view (get_l1 now k s).1.order,
        inv.size,
        keeps.size,
      ))
      w.1
run-bound cap (set k v m ∷ calls) s inv h w =
    let (keeps, after) = set_l1-refines s inv k v m in
    run-bound cap calls (set_l1 k v m s) keeps
      (omega (
        arith,
        lru_set-bound k v m cap (view s.order) inv.keys_distinct w.0
            (omega (arith, length-view s.order, inv.size)),
        ap (λ (t : Lru). length t) after,
        length-view (set_l1 k v m s).order,
        keeps.size,
      ))
      w.1
run-bound cap (clear ∷ calls) s inv h w =
    run-bound cap calls (clear_l1 s) (clear_l1-IsLinked s) (omega arith) w.1
