-- ===== src/L1/Spec.antt =====
-- What the L1 cache promises: a list of keys and values, most recently used first. It stands beside
-- gateway/l1_cache.go as the abstract view, with neither map nor elements.
use distributed_caching.Base.{
  String, List, ◌∷◌, Option, none, some, length, lookup, delete, drop_last, if◌then◌else◌,
  string_keys,
}
use distributed_caching.Base.Int.{ℤ, pos, leb_ℤ}
use distributed_caching.Cache.{KeyValue}
use distributed_caching.L1.{is_expired}
use distributed_caching.Time.{Time}

abbrev pub Lru : Type 0
Lru = List (String × KeyValue)

-- The entry of the key comes first.
abbrev pub touch : String → KeyValue → Lru → Lru
touch k v l = (k, v) ∷ delete k l

unfoldable pub lru_get : Time → String → Lru → Option KeyValue × Lru
lru_get now k l = elim (lookup k l) [
  | none ↦ (none, l)
  | some v ↦ if is_expired now v then (none, delete k l) else (some v, touch k v l)
]

unfoldable pub lru_set : String → KeyValue → ℤ → Lru → Lru
lru_set k v max_entries l = if leb_ℤ max_entries (pos 0) then l else elim (lookup k l) [
  | some _ ↦ touch k v l
  | none ↦ (k, v) ∷ (if leb_ℤ max_entries (pos (length l)) then drop_last l else l)
]
