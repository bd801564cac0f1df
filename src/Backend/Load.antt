-- ===== src/Backend/Load.antt =====
-- backend/handler/load_signals.go: the durations of the last fifteen seconds, and their 99th
-- percentile. The caller holds `loadSignalsMu`; times are arguments.
pub mod Search
pub mod Window
pub mod Percentile
use distributed_caching.Base.{
  ℕ, zero, suc, ◌+◌, ◌/◌, ◌-◌, ◌*◌, Bool, true, not, List, [], ◌∷◌, ◌++◌, map, Option, none, some,
  length, drop, get_elem?, if◌then◌else◌, ltb, leb, ◌==◌, nat_keys,
}
use distributed_caching.Base.Int.{ℤ, pos, negsuc, pos_part, ltb_ℤ, leb_ℤ, ◌-ℤ◌, ◌+ℤ◌}
use distributed_caching.Floats.{Floats}
use distributed_caching.Time.{Time, Duration, add, after, second, millisecond}

pub record LatencySample : Type 0 where
  pub recorded_at : Time
  pub duration : Duration

pub record LoadSignals (Float : Type 0) : Type 0 where
  pub p99_latency_ms : Float
  pub active_requests : ℤ
  pub max_concurrent_requests : ℤ
  pub sample_count : ℤ

-- `-loadSignalWindowDuration`, minus fifteen seconds.
abbrev pub minus_window : Duration
minus_window = negsuc (15 * second - 1)

-- The loop of `sort.Search`: the answer lies in `i` to `j`; each round halves what is left.
unfoldable pub search_loop : ℕ → (ℕ → Bool) → ℕ → ℕ → ℕ
search_loop zero f i j = i
search_loop (suc fuel) f i j =
    let h = (i + j) / 2 in
    let left = search_loop fuel f i h in
    let right = search_loop fuel f (suc h) j in if ltb i j then (if f h then left else right) else i

abbrev pub sort_search : ℕ → (ℕ → Bool) → ℕ
sort_search n f = search_loop n f 0 n

-- `!h.requestDurations[index].RecordedAt.Before(cutoff)`; `sort.Search` asks for no index beyond.
unfoldable pub is_recent : Time → LatencySample → Bool
is_recent cutoff sample = not (after cutoff sample.recorded_at)

unfoldable pub is_recent_at : Time → List LatencySample → ℕ → Bool
is_recent_at cutoff samples index = elim (get_elem? samples index) [
  | none ↦ true
  | some sample ↦ is_recent cutoff sample
]

unfoldable pub remove_expired_latency_samples : Time → List LatencySample → List LatencySample
remove_expired_latency_samples now samples =
    let cutoff = add now minus_window in
    let first_recent_index = sort_search (length samples) (is_recent_at cutoff samples) in
    if first_recent_index == 0
    then samples
    else if leb (length samples) first_recent_index
    then []
    else drop first_recent_index samples

unfoldable pub record_request_duration : Time → Duration → List LatencySample → List LatencySample
record_request_duration now duration samples =
    remove_expired_latency_samples now
      (samples ++ record { recorded_at = now; duration = duration } ∷ [])

-- The durations, and the samples that stay.
unfoldable pub recent_request_durations :
    Time → List LatencySample → List Duration × List LatencySample
recent_request_durations now samples =
    let kept = remove_expired_latency_samples now samples in
    (map (λ sample. sample.duration) kept, kept)

-- `sort.Slice` by `<`: ascending, whatever the method.
unfoldable pub insert_sorted : Duration → List Duration → List Duration
insert_sorted d [] = d ∷ []
insert_sorted d (x ∷ xs) = if leb_ℤ d x then d ∷ x ∷ xs else x ∷ insert_sorted d xs

unfoldable pub sort_durations : List Duration → List Duration
sort_durations [] = []
sort_durations (d ∷ ds) = insert_sorted d (sort_durations ds)

module _ {Float : Type 0} (o : Floats Float) where
  -- `int(math.Ceil(0.99 * float64(n)))`
  unfoldable pub p99_rank : ℕ → ℤ
  p99_rank n = o.to_int (o.ceil (o.mul (o.decimal 99 2) (o.of_int (pos n))))

  unfoldable pub p99_index : ℕ → ℤ
  p99_index n = let index = p99_rank n -ℤ pos 1 in if ltb_ℤ index (pos 0) then pos 0 else index

  -- The sample that is reported; `none` is Go's panic for an index out of range.
  unfoldable pub p99_duration : List Duration → Option Duration
  p99_duration durations =
      get_elem? (sort_durations durations) (pos_part (p99_index (length durations)))

module _ {Float : Type 0} ⦃o : Floats Float⦄ where
  unfoldable pub calculate_p99_latency_ms : List Duration → Option Float
  calculate_p99_latency_ms [] = some (o.decimal 0 0)
  calculate_p99_latency_ms (d ∷ ds) = elim (p99_duration o (d ∷ ds)) [
    | none ↦ none
    | some duration ↦ some (o.div (o.of_int duration) (o.of_int (pos millisecond)))
  ]

  -- The body of the answer, and the samples that stay.
  unfoldable pub get_load_signals :
      Time → ℤ → ℤ → List LatencySample → Option (LoadSignals Float) × List LatencySample
  get_load_signals now capacity active samples =
      let (durations, kept) = recent_request_durations now samples in
      (
        elim (calculate_p99_latency_ms durations) [
          | none ↦ none
          | some p99 ↦ some (record {
            p99_latency_ms = p99;
            active_requests = active;
            max_concurrent_requests = capacity;
            sample_count = pos (length durations);
          })
        ],
        kept,
      )
