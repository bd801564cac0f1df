-- ===== src/L2/Precision.antt =====
-- What a value loses on its way through the second level: gateway/l2_cache.go stores milliseconds.
use distributed_caching.Base.{ℕ, ◌-◌, ◌%◌, ◌^◌, ◌<◌, ◌≡◌, refl, ap, ◌∙◌, arith}
use distributed_caching.Base.Int.{pos, ◌+ℤ◌, ◌-ℤ◌, ◌*ℤ◌, ◌≤ℤ◌, ◌<ℤ◌, wrap64}
use distributed_caching.Cache.{KeyValue}
use distributed_caching.L2.{to_l2, from_l2}
use distributed_caching.Time.{Time, of_units, millisecond, milliseconds, unix_milli, of_unix_milli}

-- Reading an expiry back never puts it later, and puts it less than a millisecond earlier.
pub of_unix_milli-unix_milli :
    (t : Time)
    → (of_unix_milli (unix_milli t) ≤ℤ t) × (t <ℤ of_unix_milli (unix_milli t) +ℤ pos millisecond)
unfolding of_unix_milli unix_milli ◌+ℤ◌ ◌-ℤ◌ ◌*ℤ◌
of_unix_milli-unix_milli t = ground arith

-- A recompute duration is cut to whole milliseconds.
pub of_units-milliseconds :
    (d : ℕ) → d < 2 ^ 63 → of_units (milliseconds (pos d)) millisecond ≡ pos (d - d % millisecond)
unfolding of_units milliseconds wrap64 ◌*ℤ◌
of_units-milliseconds d h = ground arith

-- For a recompute duration of d nanoseconds, d below 2 ^ 63, the second level keeps the bytes of a
-- value, moves its expiry less than a millisecond and never later, and cuts the recompute duration
-- to whole milliseconds.
pub from_l2-to_l2 :
    (v : KeyValue) (d : ℕ)
    → v.recompute_duration ≡ pos d
    → d < 2 ^ 63
    → ((from_l2 (to_l2 v)).value ≡ v.value)
      × ((from_l2 (to_l2 v)).l2_expiration ≤ℤ v.l2_expiration)
      × (v.l2_expiration <ℤ (from_l2 (to_l2 v)).l2_expiration +ℤ pos millisecond)
      × ((from_l2 (to_l2 v)).recompute_duration ≡ pos (d - d % millisecond))
unfolding from_l2 to_l2
from_l2-to_l2 v d e h =
    let (early, near) = of_unix_milli-unix_milli v.l2_expiration in
    (
      refl,
      early,
      near,
      ap (λ t. of_units (milliseconds t) millisecond) e ∙ of_units-milliseconds d h,
    )
