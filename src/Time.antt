-- ===== src/Time.antt =====
-- Go's package time, as far as the gateway and the backend use it. A `Time` is the number of
-- nanoseconds since the zero `time.Time` (January 1 of year 1, UTC); a `Duration` is an int64 of
-- nanoseconds, so that its products wrap around.
use distributed_caching.Base.{ℕ, ◌-◌, ◌^◌, Bool, ◌&&◌, if◌then◌else◌}
use distributed_caching.Base.Int.{
  ℤ, pos, negsuc, ◌+ℤ◌, ◌-ℤ◌, ◌*ℤ◌, ltb_ℤ, leb_ℤ, quot, floor_div, wrap64,
}

abbrev pub Time : Type 0
Time = ℤ

abbrev pub Duration : Type 0
Duration = ℤ

abbrev pub millisecond : ℕ
millisecond = 1_000_000

abbrev pub second : ℕ
second = 1_000_000_000

-- From the zero time to January 1, 1970.
abbrev pub unix_epoch : Time
unix_epoch = pos 62_135_596_800_000_000_000

abbrev pub zero_time : Time
zero_time = pos 0

-- `t.IsZero()`
abbrev pub is_zero : Time → Bool
is_zero t = leb_ℤ t zero_time && leb_ℤ zero_time t

-- `t.After(u)`
abbrev pub after : Time → Time → Bool
after t u = ltb_ℤ u t

-- `t.Add(d)`
abbrev pub add : Time → Duration → Time
add t d = t +ℤ d

-- `t.Sub(u)`, which stays within the range of a duration.
unfoldable pub sub : Time → Time → Duration
sub t u =
    let d = t -ℤ u in
    if ltb_ℤ (pos (2 ^ 63 - 1)) d
    then pos (2 ^ 63 - 1)
    else if ltb_ℤ d (negsuc (2 ^ 63 - 1))
    then negsuc (2 ^ 63 - 1)
    else d

-- `time.Duration(n) * unit`
unfoldable pub of_units : ℤ → ℕ → Duration
of_units n unit = wrap64 (n *ℤ pos unit)

-- `d.Milliseconds()`
unfoldable pub milliseconds : Duration → ℤ
milliseconds d = quot d millisecond

-- `t.UnixMilli()` and `time.UnixMilli(ms)`
unfoldable pub unix_milli : Time → ℤ
unix_milli t = floor_div (t -ℤ unix_epoch) millisecond

unfoldable pub of_unix_milli : ℤ → Time
of_unix_milli ms = unix_epoch +ℤ ms *ℤ pos millisecond
