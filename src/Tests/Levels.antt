-- ===== src/Tests/Levels.antt =====
-- The L1 cache at concrete calls.
use distributed_caching.Base.{◌≡◌, ◌≤◌, List, [], ◌∷◌, length, arith}
use distributed_caching.Base.Int.{pos}
use distributed_caching.L1.{empty, clear_l1}
use distributed_caching.L1.History.{
  Call, get, set, clear, run, lru_run, run-refines_empty, run-bound,
}
use distributed_caching.L1.Keeps.{clear_l1-IsLinked}
use distributed_caching.L1.Linked.{IsLinked, view}
use distributed_caching.Tests.Cases.{value_until}

-- A limit of two: the third key evicts "b", since "a" was read in between.
abbrev calls : List Call
calls =
    set "a" (value_until 10) (pos 2)
    ∷ set "b" (value_until 10) (pos 2)
    ∷ get (pos 5) "a"
    ∷ set "c" (value_until 10) (pos 2)
    ∷ get (pos 5) "b"
    ∷ get (pos 11) "a"
    ∷ clear
    ∷ []

run-refines_empty_example :
    IsLinked (run calls empty).0
    × ((run calls empty).1 ≡ (lru_run calls []).1)
    × (view (run calls empty).0.order ≡ (lru_run calls []).0)
run-refines_empty_example = run-refines_empty calls

empty-IsLinked : IsLinked empty
unfolding clear_l1
empty-IsLinked = clear_l1-IsLinked empty

run-bound_example : length (run calls empty).0.cache ≤ 2
run-bound_example =
    run-bound 2 calls empty empty-IsLinked (omega arith)
      (omega arith, (omega arith, (tt, (omega arith, (tt, (tt, (tt, tt)))))))
