-- ===== src/Tests/Cleared.antt =====
-- A value that is stored in the second level, and what is left of it after the configuration has
-- been changed.
use distributed_caching.Base.{
  ℕ, ◌≡◌, refl, Bool, true, String, [], none, some, ◌==◌, string_keys, arith, eq_iff,
}
use distributed_caching.Base.Int.{pos}
use distributed_caching.Config.Validation.{check_config, check_cache, check_adaptive}
use distributed_caching.ConfigHandler.{
  update_cache_config, store_checked, apply_stored, install, reset_controller,
}
use distributed_caching.ConfigHandler.Clears.{StoreApart, Misses, update_cache_config-Misses}
use distributed_caching.ConfigStore.{update_config}
use distributed_caching.Gateway.{Server}
use distributed_caching.L2.{
  l2_lru_key, get_l2, set_l2, clear_l2, track_l2, score_now, remove_l2_lru, delete_each, to_l2,
}
use distributed_caching.L2.Clears.{L2Reach, start, next, stores, clear_l2-get_l2}
use distributed_caching.Lock.{
  try_acquire_distributed_lock, release_distributed_lock, release_distributed_lock_script,
}
use distributed_caching.Outside.{ok}
use distributed_caching.Shared.{
  save_shared_snapshot, try_acquire_controller_lock, release_controller_lock,
}
use distributed_caching.Shared.Reset.{
  reset, reset_round, reset_with, reset_with_lock, reset_as_owner,
}
use distributed_caching.Tests.Cases.{usual_config, value_until}
use distributed_caching.Tests.Change.{initial, silent, polling, store-SnapshotWorks}
use distributed_caching.Tests.Fixed.{thousandths}
use distributed_caching.Tests.Server.{only, world, answers, server, lock-Works}
use distributed_caching.Tests.Store.{World, ticking, store, store_view, store-Works, parse_ones}

abbrev is_page : String → Bool
is_page k = k == "/page"

-- The page is stored.
abbrev stored : World
stored =
    (set_l2 thousandths ticking store (only (to_l2 (value_until 10))) "/page" (value_until 10)
      (pos 20) (pos 2) world).1

page-absent : (j : String) → is_page j ≡ true → world.strings j ≡ none
page-absent j h = rw ((eq_iff j "/page").0 h) refl

stored-L2Reach :
    L2Reach thousandths ticking store (only (to_l2 (value_until 10))) store_view is_page stored
stored-L2Reach =
    next (start world refl page-absent) (stores "/page" (value_until 10) (pos 20) (pos 2) refl)

clear_l2-get_l2_example :
    ((clear_l2 thousandths ticking store (only (to_l2 (value_until 10))) stored).0 ≡ ok tt)
    × ((clear_l2 thousandths ticking store (only (to_l2 (value_until 10))) stored).1.sets l2_lru_key
        ≡ [])
    × ((key : String)
        → is_page key ≡ true
        → (get_l2 thousandths ticking store
            (only (to_l2 (value_until 10)))
            key
            (clear_l2 thousandths ticking store (only (to_l2 (value_until 10))) stored).1).0
          ≡ none)
clear_l2-get_l2_example =
    clear_l2-get_l2 thousandths ticking store (only (to_l2 (value_until 10))) store_view is_page
      store-Works refl stored-L2Reach

abbrev warm : Server World ℕ
warm = record server { world = stored }

store-StoreApart :
    StoreApart
      (answers 200)
      (only usual_config)
      parse_ones
      initial
      silent
      polling
      store_view
      is_page
store-StoreApart = record {
  order_same = λ t w. refl;
  value_same = λ t w j h. rw ((eq_iff j "/page").0 h) refl;
}

-- The change of the configuration is answered 200.
accepted :
    (update_cache_config
      (answers 200)
      (only usual_config)
      parse_ones
      initial
      silent
      polling
      11
      (some usual_config)
      warm).0
    ≡ some 200
unfolding update_cache_config store_checked check_config check_cache check_adaptive apply_stored
    update_config install reset_controller reset reset_round reset_with reset_with_lock
    reset_as_owner clear_l2 set_l2 track_l2 score_now remove_l2_lru delete_each save_shared_snapshot
    try_acquire_controller_lock try_acquire_distributed_lock release_controller_lock
    release_distributed_lock release_distributed_lock_script
accepted = refl

update_cache_config-Misses_example :
    Misses
      (answers 200)
      (only usual_config)
      parse_ones
      initial
      silent
      polling
      store_view
      is_page
      (update_cache_config
        (answers 200)
        (only usual_config)
        parse_ones
        initial
        silent
        polling
        11
        (some usual_config)
        warm).1
update_cache_config-Misses_example =
    update_cache_config-Misses (answers 200) (only usual_config) parse_ones initial silent polling
      store_view is_page store-Works (record { order = refl; snapshot = refl; lock = refl })
      store-StoreApart lock-Works store-SnapshotWorks (λ d w j. ground arith) 11 usual_config warm
      stored-L2Reach accepted
