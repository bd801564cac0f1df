-- ===== src/Tests/Backend.antt =====
-- The backend simulator with a semaphore of one item, and two requests for it.
use distributed_caching.Base.{
  ℕ, ◌+◌, ◌≤◌, ◌<◌, ◌≡◌, ◌⊎◌, refl, some, lookup, insert, length, nat_keys, arith,
}
use distributed_caching.Base.Int.{pos, wrap64}
use distributed_caching.Backend.Requests.{
  BackendConfig, Channel, Settings, entered, waiting, holding, Request, Handler, let_in,
  settings_of, set_phase, send, update_config, get_config, check_backend_config, start_handler,
}
use distributed_caching.Backend.Requests.Configuration.{IsValidBackend, update_config-get_config}
use distributed_caching.Backend.Requests.Invariant.{holders}
use distributed_caching.Backend.Requests.Progress.{
  Moves, stay, then, work, Idle, run_completes, Reach-counts,
}
use distributed_caching.Backend.Requests.Steps.{
  read_settings, acquire, arrive, move, configure, Reach, start, next,
}

abbrev narrow : BackendConfig
narrow = record { semaphore_size = pos 1; concurrent_delay_ms = pos 5; base_latency_ms = pos 10 }

abbrev configured : Handler
configured = (update_config (some narrow) start_handler).1

abbrev arrived : Handler
arrived = let_in 8 (pos 200) (let_in 7 (pos 100) configured)

abbrev came : ℕ → Request
came at = record { started_at = pos at; phase = entered }

abbrev read : Settings
read = settings_of configured

abbrev in_line : Request
in_line = record { started_at = pos 100; phase = waiting read }

abbrev first_reads : Handler
first_reads = set_phase 7 (came 100) (waiting read) arrived

abbrev first_holds : Handler
first_holds = set_phase 7 in_line (holding read) (send 1 (record { cap = 1; len = 0 }) first_reads)

arrived-Reach : Reach arrived
unfolding update_config check_backend_config lookup insert let_in
arrived-Reach =
    next (next (next start (configure (some narrow))) (arrive 7 (pos 100) refl refl))
      (arrive 8 (pos 200) refl refl)

run : Moves arrived 2 first_holds
unfolding update_config check_backend_config lookup insert let_in set_phase send
run =
    then 7 (came 100) refl (read_settings refl) (
      then 7 in_line refl (acquire read (record { cap = 1; len = 0 }) refl refl (omega arith)) stay)

first_holds-Reach : Reach first_holds
unfolding update_config check_backend_config lookup insert let_in set_phase send
first_holds-Reach =
    next (next arrived-Reach (move 7 (came 100) refl (read_settings refl)))
      (move 7 in_line refl (acquire read (record { cap = 1; len = 0 }) refl refl (omega arith)))

run_completes_example :
    (2 + work first_holds ≡ work arrived)
    × (u : Handler) × Moves first_holds (work first_holds) u
    × Idle u
run_completes_example = run_completes arrived-Reach run

Reach-counts_example :
    (first_holds.active ≡ wrap64 (pos (length first_holds.requests)))
    × ((a : ℕ) (c : Channel)
        → lookup a first_holds.channels ≡ some c
        → (c.len ≡ holders a first_holds) × (c.len ≤ c.cap) × (0 < c.cap))
Reach-counts_example = Reach-counts first_holds-Reach

update_config-get_config_example :
    ((IsValidBackend narrow)
      × (update_config (some narrow) start_handler).0 ≡ 200
      × get_config (update_config (some narrow) start_handler).1 ≡ narrow)
    ⊎ ((¬ IsValidBackend narrow) × update_config (some narrow) start_handler ≡ (400, start_handler))
update_config-get_config_example = update_config-get_config narrow start_handler
