-- ===== src/Lib.antt =====
-- A verification library for distributed-caching: gateways that answer requests from two levels of
-- cache, a map in memory and a shared Redis, before they ask the backend; and the backend simulator
-- that reports its load.
--
-- The parts and where they are modelled:
--
--   * L1 (gateway/l1_cache.go): the map `cache` and the list `cacheOrder` of the handler. A list
--     element is its address, so that the map and the list share it as in the code. `get_l1`,
--     `set_l1`, `remove_l1_lru` and `clear_l1` are the code's functions under its mutex, with the
--     clock's reading as an argument. L1/Linked is the invariant that the map and the list agree;
--     L1/Spec is the abstract cache, and L1/Keeps, Refines, Evicts, History and Reads relate the two.
--   * L2 (gateway/l2_cache.go): actions on an abstract world through the commands of Redis, each
--     with its error branch. L2/Working states the documented effect of those commands; L2/Stores,
--     L2/Reads and L2/Precision reason from it. L2/Tracked and L2/Calls follow the keys that the
--     order lists, and L2/Clears sequences of calls.
--   * Config (gateway/cache_config.go) and Config/Validation (the checks of
--     gateway/cache_config_handler.go); Config/Defaults.
--   * ConfigStore (gateway/gateway_config_store.go): the configuration that the gateways share, with
--     its version; a script of Redis is an action that runs with nothing in between.
--   * SingleFlight (gateway/singleflight.go): the two functions under `inFlightMu` on a heap of
--     calls. SingleFlight/Threads interleaves any number of requests as a step relation, in which
--     what a fetch returns is open; SingleFlight/Invariant and SingleFlight/Safety follow.
--   * Adaptive (gateway/adaptive_ttl_controller.go): the controller's state and each function on it;
--     Adaptive/Factor, Readings, Classes and Effective. Shared is the part of that state that the
--     gateways pass to each other through Redis, and Shared/Snapshot what arrives. Shared/Reset is the
--     controller's Reset, whose loop runs for so many rounds; Shared/Fresh and Shared/Restores show
--     what it leaves and how many rounds are enough; Shared/Frame shows what it does not write.
--   * Backend/Load (backend/handler/load_signals.go): the window of latencies and the percentile.
--     `search_loop` is the loop of Go's `sort.Search`, on fuel: the length of the list, since each
--     round shortens what is left (Backend/Load/Search shows that this is enough).
--   * Backend/Requests (backend/handler/handler.go, fault.go and backend_config.go, and
--     backend/service/service.go): the backend simulator. Backend/Requests/Steps interleaves any
--     number of requests with new configurations and faults; a channel has an address, since a
--     request keeps the channel that it read. Invariant and Moves count the items of the channels,
--     Progress follows the requests to their end; Configuration and Answer are about the answers.
--   * Fetch (gateway/backend_fetcher.go, gateway/faf.go, and the proxy's ErrorHandler of
--     gateway/handler.go): one call of the backend. What the reverse proxy comes to, the limited
--     context, the hash and the random sources are parameters (`Backend`).
--   * Lock (gateway/distributed_lock.go): the lock in Redis. The loop of fetchWithDistributedLock
--     runs for so many rounds; Lock/Rounds shows how many are enough. Lock/Holder says who holds it, and
--     Lock/Gateways interleaves any number of attempts on it.
--   * EarlyRefresh (gateway/early_refresh.go) and EarlyRefresh/Due.
--   * Gateway (gateway/handler.go, and the leader's part of gateway/singleflight.go): ServeHTTP on
--     the handler's state and the world, which it passes from part to part: the configuration from
--     ConfigStore, the times to live from Adaptive, the levels from L1 and L2, and the backend through
--     SingleFlight, Lock and Fetch. Gateway/Start is NewHandler, and Gateway/Director the path
--     that its proxy passes on; Gateway/Keeps, Stored and Repeat follow.
--   * ConfigHandler (gateway/cache_config_handler.go): the two endpoints of the configuration, on the
--     state of Gateway, with the store of ConfigStore, the second level of L2 and the controller of
--     Shared. ConfigHandler/Outcomes and ConfigHandler/Answers follow; ConfigHandler/Clears is about
--     both levels after a change. ConfigHandler/Fleet interleaves the requests of any number of
--     gateways that read and change the configuration, whose calls are split where they take
--     `configMu`; Told, Stored, Invariant and Reads follow.
--   * Polling (gateway/adaptive_ttl_controller.go): Run, on the state of Gateway: a round reads the
--     configuration, updates the shared state and sets the gauges. Run goes on until its context
--     ends; `run` is so many rounds of it. Polling/Sound, Reads, History and Kept follow a gateway
--     from NewHandler through any sequence of requests, new configurations and rounds.
--   * Middleware (gateway/middleware.go, gateway/response_writer.go) and Backend/Cors (the middleware
--     of backend/main.go): a handler is the list of its calls on its writer. Middleware/Statuses
--     follows.
--   * Wiring (gateway/main.go, backend/main.go): the tables of routes, over a router that is a
--     parameter with its documented laws. Wiring/Routes and Wiring/Counts follow.
--   * Provenance is about what the gateways answer (gateway/handler.go and all that ServeHTTP calls):
--     Provenance states what is relied on of Redis and the codec; First and Second are the
--     two levels, Fetches, Locked and Refreshed the fetches, Answers and Served a request, and
--     Several the requests to several gateways beside one Redis, which are not interleaved.
--     Outside/Ensuring has the rules for what an action leaves and answers.
--   * Cache (gateway/cache_types.go), Time (Go's package time), Floats (float64 as an interface with
--     the facts of IEEE 754 that are used), Outside (Redis, the clock and the JSON codec) and Base
--     (shared names and lemmas). Tests has the instances and the inputs of the examples.
--
-- An int and an int64 are integers; sums and products that can overflow are wrapped to 64 bits where
-- the code computes them. Times are nanoseconds since Go's zero time and do not overflow.
--
-- Not modelled: logging and the registration of metrics, the middleware of rs/cors, listening, the
-- frontend, nginx, the monitoring, the load scripts and their results.
pub mod Base
pub mod Time
pub mod Floats
pub mod Cache
pub mod L1
pub mod Config
pub mod Adaptive
pub mod SingleFlight
pub mod Outside
pub mod L2
pub mod ConfigStore
pub mod Backend
pub mod Fetch
pub mod Lock
pub mod EarlyRefresh
pub mod Shared
pub mod Gateway
pub mod ConfigHandler
pub mod Polling
pub mod Middleware
pub mod Wiring
pub mod Provenance
mod Tests
