-- ===== src/Tests/Window.antt =====
-- The backend's window of durations, at concrete samples.
use distributed_caching.Base.{ℕ, ◌*◌, ◌≤◌, ◌<◌, ◌≡◌, List, [], ◌∷◌, ◌++◌, some, length, All, arith}
use distributed_caching.Base.Int.{pos, ◌≤ℤ◌}
use distributed_caching.Backend.Load.{
  LatencySample, is_recent, record_request_duration, minus_window, p99_duration,
}
use distributed_caching.Backend.Load.Percentile.{p99_duration-IsPercentile, count_le, count_lt}
use distributed_caching.Backend.Load.Window.{IsOrdered, keep, record_request_duration-keep}
use distributed_caching.Tests.Fixed.{thousandths, thousandths_values}
use distributed_caching.Time.{Duration, add, second}

abbrev sample : ℕ → LatencySample
sample t = record { recorded_at = pos (t * second); duration = pos 40_000_000 }

-- At 20 s the first sample is out of the window.
abbrev samples : List LatencySample
samples = sample 3 ∷ sample 9 ∷ sample 15 ∷ []

samples-IsOrdered : IsOrdered samples
samples-IsOrdered = ((omega arith, (omega arith, tt)), ((omega arith, tt), (tt, tt)))

samples_past : All (λ x. x.recorded_at ≤ℤ pos (20 * second)) samples
samples_past = (omega arith, (omega arith, (omega arith, tt)))

record_request_duration-keep_example :
    record_request_duration (pos (20 * second)) (pos 7) samples
    ≡ keep (is_recent (add (pos (20 * second)) minus_window)) samples
      ++ record { recorded_at = pos (20 * second); duration = pos 7 } ∷ []
record_request_duration-keep_example =
    record_request_duration-keep (pos (20 * second)) (pos 7) samples samples-IsOrdered samples_past

abbrev durations : List Duration
durations = pos 30 ∷ pos 10 ∷ pos 20 ∷ []

p99_duration-IsPercentile_example :
    (d : Duration) × (p99_duration thousandths durations ≡ some d)
    × (99 * length durations ≤ 100 * count_le d durations)
    × (100 * count_lt d durations < 99 * length durations)
p99_duration-IsPercentile_example =
    p99_duration-IsPercentile thousandths thousandths_values durations (omega arith) (omega arith)
