-- ===== src/Tests/Change.antt =====
-- A change of the configuration of a gateway that may poll the controller's lock ten times.
use distributed_caching.Base.{
  ℕ, ◌-◌, suc, ◌≡◌, ◌≢◌, ◌⊎◌, refl, Bool, true, false, none, some, String, arith, ltb,
  if◌then◌else◌, Option-cases, inl, inr,
}
use distributed_caching.Base.Int.{pos}
use distributed_caching.Adaptive.{AdaptiveTtlSnapshot, BackendLoadSignals, warning, disabled}
use distributed_caching.Config.{GatewayConfig}
use distributed_caching.Config.Validation.{
  check_config, check_cache, check_adaptive, check_config_iff, IsValid,
}
use distributed_caching.ConfigHandler.{update_cache_config}
use distributed_caching.ConfigHandler.Answers.{IsShared, update_cache_config-answers}
use distributed_caching.ConfigHandler.Outcomes.{
  Installed, update_cache_config-refused, update_cache_config-installs,
}
use distributed_caching.ConfigStore.{update_config}
use distributed_caching.Lock.{try_acquire_distributed_lock}
use distributed_caching.Floats.{Floats}
use distributed_caching.Outside.{Io, Codec, Reply, err, RoundTrips}
use distributed_caching.Shared.{
  Control, try_acquire_controller_lock, adaptive_ttl_controller_lock_redis_key,
}
use distributed_caching.Shared.Fresh.{SnapshotWorks}
use distributed_caching.Shared.Reset.{reset, reset_snapshot}
use distributed_caching.Shared.Restores.{Remaining, Restores, reset-Restores}
use distributed_caching.Tests.Cases.{usual_config, controller_at}
use distributed_caching.Tests.Fixed.{thousandths, thousandths_order}
use distributed_caching.Tests.Server.{only, world, answers, server, lock-Works}
use distributed_caching.Tests.Store.{World, store, parse_ones}
use distributed_caching.Time.{Duration}

instance abbrev fixed_point : Floats ℕ
fixed_point = thousandths

abbrev pub polling : Duration → Io World Bool
polling d w = if ltb w.clock 10 then (true, record w { clock = suc w.clock }) else (false, w)

abbrev pub silent : Io World (Reply (BackendLoadSignals ℕ))
silent w = (err "unreachable", w)

abbrev pub initial : Codec (AdaptiveTtlSnapshot ℕ)
initial = only (record {
  factor = 1000;
  state = if usual_config.adaptive_ttl_enabled then warning else disabled;
  consecutive_stable_readings = pos 0;
  consecutive_congested_readings = pos 0;
  last_backend_p99_latency_ms = 0;
})

initial-RoundTrips :
    RoundTrips initial
      (reset_snapshot (answers 200) initial silent polling usual_config.adaptive_ttl_enabled)
initial-RoundTrips = record { text = "json"; written = refl; read_back = refl }

pub store-SnapshotWorks : SnapshotWorks (answers 200) initial silent polling (λ w k. w.strings k)
store-SnapshotWorks = record { get = λ k w. refl; set_value = λ k t ttl w j. refl }

set_nx-clock :
    (k t : String) (ttl : Duration) (w : World) → (store.set_nx k t ttl w).1.clock ≡ w.clock
set_nx-clock k t ttl w = ground arith

try_acquire_controller_lock-clock :
    (w : World) → (try_acquire_controller_lock (answers 200) initial silent w).1.clock ≡ w.clock
unfolding try_acquire_controller_lock try_acquire_distributed_lock
try_acquire_controller_lock-clock w =
    elim (Option-cases (w.strings adaptive_ttl_controller_lock_redis_key)) [
      | inl free ↦ rw (free, try_acquire_controller_lock) refl
      | inr (t, held) ↦ rw (held, try_acquire_controller_lock) refl
    ]

ten_polls : Remaining (answers 200) initial silent polling
ten_polls = record {
  left = λ w. 10 - w.clock;
  acquires = λ w. omega (arith, try_acquire_controller_lock-clock w);
  uses = λ d w h. ground arith;
}

abbrev before : Control World ℕ
before = record { controller = controller_at 2000; world = world }

reset-Restores_example :
    (r : Reply (Unit {0})) × ((reset (answers 200) initial silent polling 11 true before).0
      ≡ some r)
    × Restores
        (answers 200)
        initial
        silent
        polling
        (λ w k. w.strings k)
        store-SnapshotWorks
        lock-Works
        true
        initial-RoundTrips
        before
        r
        (reset (answers 200) initial silent polling 11 true before).1
unfolding ten_polls
reset-Restores_example =
    reset-Restores (answers 200) initial silent polling (λ w k. w.strings k) store-SnapshotWorks
      lock-Works true initial-RoundTrips thousandths_order ten_polls 11 before (omega arith)

usual_config-IsValid : IsValid usual_config
unfolding check_config check_cache check_adaptive
usual_config-IsValid = (check_config_iff usual_config).0 refl

update_cache_config-refused_example :
    ((update_cache_config
          (answers 200)
          (only usual_config)
          parse_ones
          initial
          silent
          polling
          11
          none
          server
        ≡ (some 400, server))
      × ((c : GatewayConfig ℕ) → none ≡ some c → ¬ IsValid c))
    ⊎ ((c : GatewayConfig ℕ) × (none ≡ some c)
        × IsValid c
        × ((update_cache_config
              (answers 200)
              (only usual_config)
              parse_ones
              initial
              silent
              polling
              11
              none
              server).0
            ≢ some 400))
update_cache_config-refused_example =
    update_cache_config-refused (answers 200) (only usual_config) parse_ones initial silent polling
      11 none server

update_cache_config-installs_example :
    Installed
      (answers 200)
      (only usual_config)
      parse_ones
      initial
      silent
      polling
      usual_config
      (pos 1)
      (update_cache_config
        (answers 200)
        (only usual_config)
        parse_ones
        initial
        silent
        polling
        11
        (some usual_config)
        server).1
unfolding update_config
update_cache_config-installs_example =
    update_cache_config-installs (answers 200) (only usual_config) parse_ones initial silent polling
      11 usual_config (pos 1) server usual_config-IsValid refl

update_cache_config-answers_example :
    ((update_cache_config
        (answers 200)
        (only usual_config)
        parse_ones
        initial
        silent
        polling
        11
        (some usual_config)
        server).0
      ≡ some 500)
    ⊎ (((update_cache_config
            (answers 200)
            (only usual_config)
            parse_ones
            initial
            silent
            polling
            11
            (some usual_config)
            server).0
          ≡ some 200)
        × IsShared
            (answers 200)
            (only usual_config)
            parse_ones
            initial
            silent
            polling
            true
            (update_cache_config
              (answers 200)
              (only usual_config)
              parse_ones
              initial
              silent
              polling
              11
              (some usual_config)
              server).1)
unfolding ten_polls
update_cache_config-answers_example =
    update_cache_config-answers (answers 200) (only usual_config) parse_ones initial silent polling
      thousandths_order (λ w k. w.strings k) store-SnapshotWorks lock-Works ten_polls 11
      (λ w. omega arith) usual_config initial-RoundTrips server usual_config-IsValid
