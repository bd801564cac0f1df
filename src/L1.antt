-- ===== src/L1.antt =====
-- gateway/l1_cache.go and the fields `cache`, `cacheOrder` of gateway/handler.go: a map from keys to
-- the elements of a doubly linked list, most recently used first. An element is known by its
-- address; the list holds each address with the `CacheEntry` that the element points to.
pub mod Linked
pub mod Keeps
pub mod Spec
pub mod Refines
pub mod Evicts
pub mod History
pub mod Reads
use distributed_caching.Base.{
  ℕ, suc, Bool, ◌&&◌, ◌||◌, not, String, List, [], ◌∷◌, Option, none, some, length, last?, lookup,
  insert, delete, if◌then◌else◌, nat_keys, string_keys,
}
use distributed_caching.Base.Int.{ℤ, pos, leb_ℤ}
use distributed_caching.Time.{Time, after, is_zero}
use distributed_caching.Cache.{KeyValue, CacheEntry}

abbrev pub Address : Type 0
Address = ℕ

abbrev pub Order : Type 0
Order = List (Address × CacheEntry)

pub record L1 : Type 0 where
  pub cache : List (String × Address)
  pub order : Order
  pub next_address : Address  -- where the next element is allocated

abbrev pub empty : L1
empty = record { cache = []; order = []; next_address = 0 }

-- `cacheOrder.MoveToFront(element)`
unfoldable pub move_to_front : Address → Order → Order
move_to_front element order = elim (lookup element order) [
  | none ↦ order
  | some entry ↦ (element, entry) ∷ delete element order
]

-- `entry.Value = value` through the pointer in the element
unfoldable pub assign : Address → KeyValue → Order → Order
assign element value order = elim (lookup element order) [
  | none ↦ order
  | some entry ↦ insert element (record entry { value = value }) order
]

unfoldable pub is_expired : Time → KeyValue → Bool
is_expired now value =
    after now value.l1_expiration
    || (not (is_zero value.l2_expiration) && after now value.l2_expiration)

-- A map entry whose element is not in the list cannot arise (`Linked`); it reads as a miss.
unfoldable pub get_l1 : Time → String → L1 → Option KeyValue × L1
get_l1 now key s = elim (lookup key s.cache) [
  | none ↦ (none, s)
  | some element ↦ elim (lookup element s.order) [
    | none ↦ (none, s)
    | some entry ↦
        if is_expired now entry.value
        then (none, record s { cache = delete key s.cache; order = delete element s.order })
        else (some entry.value, record s { order = move_to_front element s.order })
  ]
]

unfoldable pub remove_l1_lru : L1 → L1
remove_l1_lru s = elim (last? s.order) [
  | none ↦ s
  | some (element, entry) ↦ record s {
    cache = delete entry.key s.cache;
    order = delete element s.order;
  }
]

-- The end of `setL1`: `PushFront` of a new element, and its entry in the map.
unfoldable pub push_l1 : String → KeyValue → L1 → L1
push_l1 key value s = record {
  cache = insert key s.next_address s.cache;
  order = (s.next_address, record { key = key; value = value }) ∷ s.order;
  next_address = suc s.next_address;
}

unfoldable pub set_l1 : String → KeyValue → ℤ → L1 → L1
set_l1 key value max_entries s =
    if leb_ℤ max_entries (pos 0) then s else elim (lookup key s.cache) [
      | some element ↦ record s { order = move_to_front element (assign element value s.order) }
      | none ↦
          push_l1 key value
            (if leb_ℤ max_entries (pos (length s.cache)) then remove_l1_lru s else s)
    ]

unfoldable pub clear_l1 : L1 → L1
clear_l1 s = record s { cache = []; order = [] }
