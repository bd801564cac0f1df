-- ===== src/Tests/Runs.antt =====
-- A gateway from its start on: a request, a new configuration, a round of the controller.
use distributed_caching.Base.{ℕ, ◌≡◌, refl, List, [], ◌∷◌}
use distributed_caching.Base.Int.{pos}
use distributed_caching.Adaptive.{new_controller}
use distributed_caching.Config.{apply_adaptive_ttl_defaults}
use distributed_caching.ConfigStore.{
  initialize, initialize_script, start_config, start_version, get_config, read_values, read_config,
}
use distributed_caching.Floats.{Floats}
use distributed_caching.Gateway.{Server}
use distributed_caching.Gateway.Start.{new_handler, start_handler_with, default_config}
use distributed_caching.L1.{empty}
use distributed_caching.Outside.{Io, ok}
use distributed_caching.Polling.{Gauges}
use distributed_caching.Polling.History.{
  Call, request, change, round, elsewhere, after_calls, NumericCodecs,
}
use distributed_caching.Polling.Kept.{Kept, after_calls_from_start}
use distributed_caching.SingleFlight.{no_flights}
use distributed_caching.Tests.Cases.{usual_config}
use distributed_caching.Tests.Change.{initial, silent, polling}
use distributed_caching.Tests.Fixed.{thousandths, thousandths_order}
use distributed_caching.Tests.Server.{only, world, answers}
use distributed_caching.Tests.Store.{World, parse_ones}

instance abbrev fixed_point : Floats ℕ
fixed_point = thousandths

abbrev ignored : Gauges ℕ → Io World (Unit {0})
ignored g w = (tt, w)

numbers : NumericCodecs (answers 200) (only usual_config) parse_ones initial silent polling ignored
numbers = record {
  snapshot_factor = λ t s e. refl;
  config_min = λ t c e. refl;
  config_max = λ t c e. refl;
}

abbrev started : Server World ℕ
started = record {
  l1 = empty;
  gateway_config = usual_config;
  config_version = pos 1;
  controller = new_controller;
  flights = no_flights;
  world =
      (initialize (answers 200).redis (only usual_config) parse_ones
        (default_config (answers 200) (only usual_config) parse_ones) world).1;
}

new_handler-started : new_handler (answers 200) (only usual_config) parse_ones world ≡ ok started
unfolding new_handler start_handler_with initialize initialize_script start_config start_version
    get_config read_values read_config apply_adaptive_ttl_defaults parse_ones
new_handler-started = refl

abbrev calls : List (Call World)
calls = request 3 "/key" ∷ change 11 "json" ∷ round ∷ elsewhere world ∷ request 3 "/key" ∷ []

after_calls_from_start_example :
    Kept
      (answers 200)
      (only usual_config)
      parse_ones
      initial
      silent
      polling
      ignored
      thousandths_order
      numbers
      (after_calls
        (answers 200)
        (only usual_config)
        parse_ones
        initial
        silent
        polling
        ignored
        calls
        started)
after_calls_from_start_example =
    after_calls_from_start (answers 200) (only usual_config) parse_ones initial silent polling
      ignored thousandths_order numbers world started calls new_handler-started
