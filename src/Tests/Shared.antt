-- ===== src/Tests/Shared.antt =====
-- The second level and the shared configuration in a concrete Redis.
use distributed_caching.Base.{
  ℕ, ◌≤◌, ◌≡◌, ◌≢◌, ◌-◌, ◌%◌, refl, String, [], ◌∷◌, none, some, length, arith, eq_iff, false,
  string_keys, ◌==◌, if◌then◌else◌,
}
use distributed_caching.Base.Int.{pos, ◌≤ℤ◌, ◌<ℤ◌, ◌+ℤ◌}
use distributed_caching.Cache.{KeyValue}
use distributed_caching.Config.Validation.{check_config, check_cache, check_adaptive}
use distributed_caching.ConfigStore.{
  gateway_config_key, gateway_config_version_key, initialize, get_config, update_config,
}
use distributed_caching.ConfigStore.Working.{get_config-update_config, initialize-keeps}
use distributed_caching.Floats.{Floats}
use distributed_caching.L2.{l2_lru_key, to_l2, from_l2, get_l2, set_l2, score_now}
use distributed_caching.L2.Precision.{from_l2-to_l2}
use distributed_caching.L2.Reads.{set_l2-bound, get_l2-set_l2}
use distributed_caching.Outside.{Codec, RoundTrips, ok}
use distributed_caching.Tests.Cases.{usual_config, value_until}
use distributed_caching.Tests.Fixed.{thousandths, thousandths_order}
use distributed_caching.Tests.Store.{
  World, ticking, store, store_view, store-Works, store-ConfigWorks, counter_of_ones, parse_ones,
  ones,
}
use distributed_caching.Time.{millisecond}

instance abbrev fixed_point : Floats ℕ
fixed_point = thousandths

-- A codec that is exact on one value.
abbrev only : {A : Type 0} → A → Codec A
only a = record { encode = λ _. ok "json"; decode = λ _. some a }

only-RoundTrips : {A : Type 0} (a : A) → RoundTrips (only a) a
only-RoundTrips a = record { text = "json"; written = refl; read_back = refl }

-- Two keys in the order, of which a write with a limit of two evicts the first.
abbrev two_keys : World
two_keys = record {
  strings = λ k. if k == "a" then some "json" else if k == "b" then some "json" else none;
  sets = λ z. if z == l2_lru_key then "a" ∷ "b" ∷ [] else [];
  clock = 5;
}

abbrev cached : KeyValue
cached = value_until 10

get_l2-set_l2_example :
    (get_l2 thousandths ticking store
      (only (to_l2 cached))
      "c"
      (set_l2 thousandths ticking store
        (only (to_l2 cached))
        "c"
        cached
        (pos 20)
        (pos 2)
        two_keys).1).0
    ≡ some (from_l2 (to_l2 cached))
get_l2-set_l2_example =
    get_l2-set_l2 thousandths ticking store (only (to_l2 cached)) store_view store-Works "c" cached
      (pos 20) 2 two_keys (only-RoundTrips (to_l2 cached)) (omega arith) refl

other_key : (k : String) → (k == l2_lru_key) ≡ false → k ≢ l2_lru_key
other_key k h = λ e. cc (h, (eq_iff k l2_lru_key).1 e)

set_l2-bound_example :
    length (
      (set_l2 thousandths ticking store
          (only (to_l2 cached))
          "c"
          cached
          (pos 20)
          (pos 2)
          two_keys).1.sets
        l2_lru_key)
    ≤ 2
unfolding score_now
set_l2-bound_example =
    set_l2-bound thousandths ticking store (only (to_l2 cached)) store_view store-Works "c" cached
      (pos 20) 2 two_keys (only-RoundTrips (to_l2 cached)) (omega arith) refl
      (other_key "a" refl, (other_key "b" refl, tt))

from_l2-to_l2_example :
    ((from_l2 (to_l2 cached)).value ≡ cached.value)
    × ((from_l2 (to_l2 cached)).l2_expiration ≤ℤ cached.l2_expiration)
    × (cached.l2_expiration <ℤ (from_l2 (to_l2 cached)).l2_expiration +ℤ pos millisecond)
    × ((from_l2 (to_l2 cached)).recompute_duration ≡ pos (1_500_000 - 1_500_000 % millisecond))
from_l2-to_l2_example = from_l2-to_l2 cached 1_500_000 refl (omega arith)

-- The store after three updates.
abbrev third : World
third = record {
  strings = λ k.
      if k == gateway_config_key
      then some "json"
      else if k == gateway_config_version_key
      then some "111"
      else none;
  sets = λ z. [];
  clock = 0;
}

usual_config-passes : check_config usual_config ≡ none
unfolding check_config check_cache check_adaptive
usual_config-passes = refl

get_config-update_config_example :
    ((update_config store (only usual_config) parse_ones usual_config third).0 ≡ ok (pos 4))
    × ((get_config store
          (only usual_config)
          parse_ones
          (update_config store (only usual_config) parse_ones usual_config third).1).0
        ≡ ok (usual_config, pos 4))
unfolding counter_of_ones ones
get_config-update_config_example =
    get_config-update_config thousandths_order store (only usual_config) (λ w k. w.strings k)
      parse_ones counter_of_ones store-ConfigWorks usual_config (only-RoundTrips usual_config) third
      3 refl usual_config-passes

initialize-keeps_example :
    let w' = (initialize store (only usual_config) parse_ones usual_config third).1 in
    (w'.strings gateway_config_key ≡ some "json")
    × (w'.strings gateway_config_version_key ≡ some "111")
initialize-keeps_example =
    initialize-keeps thousandths_order store (only usual_config) (λ w k. w.strings k) parse_ones
      counter_of_ones store-ConfigWorks usual_config (only-RoundTrips usual_config) third
