-- ===== src/Tests/Fleet.antt =====
-- One gateway and two requests: one reads the configuration, the other changes it, and the first one
-- then takes up what it read.
use distributed_caching.Base.{
  ℕ, ◌≡◌, refl, false, none, some, lookup, insert, delete, nat_keys, string_keys, ◌==◌,
  if◌then◌else◌, [], ◌∷◌, arith, Everywhere, Everywhere-insert,
}
use distributed_caching.Base.Int.{pos}
use distributed_caching.Config.{GatewayConfig, apply_adaptive_ttl_defaults}
use distributed_caching.Config.Validation.{check_config, check_cache, check_adaptive}
use distributed_caching.ConfigHandler.{install}
use distributed_caching.ConfigHandler.Fleet.{
  adopting, installing, Fleet, FleetEvent, FleetStep, reads, adopts, publishes, installs, read,
  adopt, publish, finish, in_world,
}
use distributed_caching.ConfigHandler.Fleet.Invariant.{IsTrue, GatewayTold, FleetStep-IsTrue}
use distributed_caching.ConfigHandler.Fleet.Reads.{at_once, later, Runs, adopts_latest}
use distributed_caching.ConfigHandler.Fleet.Told.{IsTold-latest}
use distributed_caching.ConfigStore.{
  get_config, read_values, read_config, update_config, gateway_config_key,
  gateway_config_version_key,
}
use distributed_caching.Floats.{Floats}
use distributed_caching.Gateway.{adopt_config}
use distributed_caching.Outside.{Codec, RoundTrips, ok}
use distributed_caching.Tests.Cases.{usual_config}
use distributed_caching.Tests.Change.{initial, silent, polling}
use distributed_caching.Tests.Fixed.{thousandths, thousandths_order}
use distributed_caching.Tests.Server.{answers, server}
use distributed_caching.Tests.Store.{
  World, store, ones, parse_ones, counter_of_ones, store-ConfigWorks,
}

instance abbrev fixed_point : Floats ℕ
fixed_point = thousandths

abbrev other_config : GatewayConfig ℕ
other_config = record usual_config { single_flight_enabled = false }

-- A codec of the two configurations.
abbrev two : Codec (GatewayConfig ℕ)
two = record {
  encode = λ c. ok (if c.single_flight_enabled then "usual" else "other");
  decode = λ t.
      if t == "usual" then some usual_config else if t == "other" then some other_config else none;
}

abbrev other-RoundTrips : RoundTrips two other_config
other-RoundTrips = record { text = "other"; written = refl; read_back = refl }

abbrev first_world : World
first_world = record {
  strings = λ k.
      if k == gateway_config_key
      then some "usual"
      else if k == gateway_config_version_key
      then some "1"
      else none;
  sets = λ z. [];
  clock = 5;
}

abbrev started : Fleet World ℕ
started = record {
  world = first_world;
  gateways = (1, server) ∷ [];
  tasks = [];
  published = usual_config ∷ [];
}

abbrev StepHere : Fleet World ℕ → FleetEvent → Fleet World ℕ → Type 0
StepHere = FleetStep (answers 200) two parse_ones initial silent polling (λ w k. w.strings k)

abbrev IsTrueHere : Fleet World ℕ → Type 0
IsTrueHere =
    IsTrue (answers 200) two parse_ones initial silent polling (λ w k. w.strings k) counter_of_ones

single : {V : Type 0} (P : V → Type 0) (k : ℕ) (v : V) → P v → Everywhere P ((k, v) ∷ [])
unfolding insert lookup
single P k v h = Everywhere-insert P k v [] h (λ j w e. cc)

started-IsTrue : IsTrueHere started
unfolding counter_of_ones ones lookup
started-IsTrue = record {
  latest = usual_config;
  earlier = [];
  history = refl;
  stored = record {
    text = "usual";
    has_text = refl;
    decodes = refl;
    usable = ground arith;
    has_version = refl;
  };
  at_gateway = single (GatewayTold (usual_config ∷ [])) 1 server (IsTold-latest usual_config []);
  at_task = λ t task e. cc;
}

-- Request 5 has read the first configuration.
abbrev has_read : Fleet World ℕ
has_read = record started { tasks = (5, adopting 1 usual_config (pos 1)) ∷ [] }

reading : StepHere started (reads 5 1) has_read
unfolding get_config read_values read_config insert lookup parse_ones apply_adaptive_ttl_defaults
reading = read 5 1 usual_config (pos 1) refl refl

-- Request 6 stores the second configuration, and installs it.
abbrev has_stored : Fleet World ℕ
has_stored = record {
  world = (update_config store two parse_ones other_config first_world).1;
  gateways = (1, server) ∷ [];
  tasks = (5, adopting 1 usual_config (pos 1)) ∷ (6, installing 1 other_config (pos 2)) ∷ [];
  published = other_config ∷ usual_config ∷ [];
}

storing : StepHere has_read (publishes 6 1) has_stored
unfolding update_config insert lookup check_config check_cache check_adaptive
storing = publish 6 1 other_config (pos 2) other-RoundTrips refl refl refl

abbrev has_installed : Fleet World ℕ
has_installed = record {
  world = has_stored.world;
  gateways =
      (
        1,
        (install (answers 200) two parse_ones initial silent polling other_config (pos 2)
            (in_world has_stored.world server)).1,
      )
      ∷ [];
  tasks = (5, adopting 1 usual_config (pos 1)) ∷ [];
  published = other_config ∷ usual_config ∷ [];
}

installing_it : StepHere has_stored (installs 6 1) has_installed
unfolding insert lookup delete install
installing_it = finish 6 1 other_config (pos 2) server refl refl

-- The gateway has the second configuration, and takes up the first one again.
has_second : (elim has_installed.gateways [ [] ↦ pos 0 | (g, s) ∷ rest ↦ s.config_version ]) ≡ pos 2
unfolding install
has_second = refl

abbrev has_adopted : Fleet World ℕ
has_adopted = record {
  world = has_stored.world;
  gateways =
      (
        1,
        adopt_config (answers 200) usual_config (pos 1) (
            in_world has_stored.world
              (install (answers 200) two parse_ones initial silent polling other_config (pos 2)
                (in_world has_stored.world server)).1),
      )
      ∷ [];
  tasks = [];
  published = other_config ∷ usual_config ∷ [];
}

adopting_it : StepHere has_installed (adopts 5 1) has_adopted
unfolding insert lookup delete
adopting_it = adopt 5 1 usual_config (pos 1) _ refl refl

adopts_latest_example :
    Runs
      (answers 200)
      two
      parse_ones
      initial
      silent
      polling
      (λ w k. w.strings k)
      counter_of_ones
      store-ConfigWorks
      thousandths_order
      has_adopted
      1
      usual_config
      (pos 1)
unfolding started-IsTrue
adopts_latest_example =
    adopts_latest (answers 200) two parse_ones initial silent polling (λ w k. w.strings k)
      counter_of_ones store-ConfigWorks thousandths_order 5 1 started-IsTrue reading
      (later (later at_once storing (λ e. cc)) installing_it (λ e. cc)) adopting_it

FleetStep-IsTrue_example : IsTrueHere has_read
FleetStep-IsTrue_example =
    FleetStep-IsTrue (answers 200) two parse_ones initial silent polling (λ w k. w.strings k)
      counter_of_ones store-ConfigWorks thousandths_order reading started-IsTrue
