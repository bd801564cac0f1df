-- ===== src/Backend/Requests.antt =====
-- backend/handler/handler.go, backend/handler/fault.go, backend/handler/backend_config.go and
-- backend/service/service.go: the backend simulator. A channel that serves as a semaphore is an
-- address with a capacity and the number of its items; a request keeps the channel that it read,
-- also after the configuration has another one. Encoding and logging are left out.
pub mod Steps
pub mod Invariant
pub mod Moves
pub mod Progress
pub mod Configuration
mod Answer
use distributed_caching.Base.{
  ℕ, zero, suc, ◌+◌, ◌-◌, Bool, true, false, String, List, [], ◌∷◌, Option, none, some, lookup,
  insert, delete, if◌then◌else◌, nat_keys, string_keys, ◌==◌,
}
use distributed_caching.Base.Int.{ℤ, pos, negsuc, pos_part, ◌+ℤ◌, ◌*ℤ◌, leb_ℤ, ltb_ℤ, wrap64}
use distributed_caching.Backend.Load.{LatencySample, record_request_duration}
use distributed_caching.Config.Validation.{Check, refuse, ◌>>◌}
use distributed_caching.Outside.{Reply, ok, err}
use distributed_caching.Time.{Time, Duration, sub, of_units, millisecond}

pub record BackendConfig : Type 0 where
  pub semaphore_size : ℤ
  pub concurrent_delay_ms : ℤ
  pub base_latency_ms : ℤ

-- `chan struct{}`
pub record Channel : Type 0 where
  pub cap : ℕ
  pub len : ℕ

-- What a request reads of the configuration.
pub record Settings : Type 0 where
  pub semaphore : ℕ
  pub concurrent_delay_ms : ℤ
  pub base_latency_ms : ℤ

-- How far a request is in `Get`.
pub data Phase : Type 0 where
  entered : Phase
  waiting : Settings → Phase  -- in the `select` on the semaphore
  holding : Settings → Phase
  delayed : Settings → Duration → Phase  -- in the two waits
  leaving : Phase

pub record Request : Type 0 where
  pub started_at : Time
  pub phase : Phase

pub record Handler : Type 0 where
  pub semaphore : ℕ
  pub channels : List (ℕ × Channel)
  pub next_channel : ℕ
  pub concurrent_delay_ms : ℤ
  pub base_latency_ms : ℤ
  pub active : ℤ
  pub unavailable : Bool
  pub faults : ℕ  -- the goroutines of `ActivateFault` that sleep
  pub request_durations : List LatencySample
  pub requests : List (ℕ × Request)

-- `make(chan struct{}, size)`
abbrev pub make_channel : ℤ → Channel
make_channel size = record { cap = pos_part size; len = 0 }

-- The handler that backend/main.go starts with.
abbrev pub start_handler : Handler
start_handler = record {
  semaphore = 0;
  channels = (0, make_channel (pos 15)) ∷ [];
  next_channel = 1;
  concurrent_delay_ms = pos 5;
  base_latency_ms = pos 200;
  active = pos 0;
  unavailable = false;
  faults = 0;
  request_durations = [];
  requests = [];
}

-- A request that was let in: `atomic.AddInt64(&handler.Active, 1)`.
unfoldable pub let_in : ℕ → Time → Handler → Handler
let_in i now h = record h {
  active = wrap64 (h.active +ℤ pos 1);
  requests = insert i (record { started_at = now; phase = entered }) h.requests;
}

abbrev pub settings_of : Handler → Settings
settings_of h = record {
  semaphore = h.semaphore;
  concurrent_delay_ms = h.concurrent_delay_ms;
  base_latency_ms = h.base_latency_ms;
}

unfoldable pub set_phase : ℕ → Request → Phase → Handler → Handler
set_phase i r p h = record h { requests = insert i (record r { phase = p }) h.requests }

-- `semaphore <- struct{}{}`, and `<-semaphore`
unfoldable pub send : ℕ → Channel → Handler → Handler
send a c h = record h { channels = insert a (record c { len = suc c.len }) h.channels }

unfoldable pub receive : ℕ → Channel → Handler → Handler
receive a c h = record h { channels = insert a (record c { len = c.len - 1 }) h.channels }

-- `time.Duration(len(semaphore)) * time.Duration(concurrentDelayMs) * time.Millisecond`
unfoldable pub concurrent_delay : Settings → Channel → Duration
concurrent_delay s c = of_units (wrap64 (pos c.len *ℤ s.concurrent_delay_ms)) millisecond

-- The deferred function of `Get`.
unfoldable pub let_out : ℕ → Request → Time → Handler → Handler
let_out i r now h = record h {
  active = wrap64 (h.active +ℤ negsuc 0);
  request_durations = record_request_duration now (sub now r.started_at) h.request_durations;
  requests = delete i h.requests;
}

pub record Entity : Type 0 where
  pub id : String
  pub name : String

-- Whether the context ended before the base latency was over is given.
unfoldable pub find_entity : String → Bool → Reply Entity
find_entity id ended =
    if id == ""
    then err "Invalid id"
    else if ended
    then err "context canceled"
    else ok (record { id = id; name = "Test Entity" })

-- What `Get` answers after the semaphore: nothing to a request that was canceled.
unfoldable pub get_answer : String → Bool → Bool → Option (ℕ × Option Entity)
get_answer id ended_in_delay ended = if ended_in_delay then none else elim (find_entity id ended) [
  | ok entity ↦ some (200, some entity)
  | err _ ↦ if ended then none else some (404, none)
]

unfoldable pub check_backend_config : BackendConfig → Check
check_backend_config c = do
  refuse (leb_ℤ c.semaphore_size (pos 0)) "Semaphore size must be greater than zero"
  refuse (ltb_ℤ c.concurrent_delay_ms (pos 0)) "Concurrent delay must not be negative"
  refuse (ltb_ℤ c.base_latency_ms (pos 0)) "Base latency must not be negative"

abbrev pub install_config : BackendConfig → Handler → Handler
install_config c h = record h {
  semaphore = h.next_channel;
  channels = insert h.next_channel (make_channel c.semaphore_size) h.channels;
  next_channel = suc h.next_channel;
  concurrent_delay_ms = c.concurrent_delay_ms;
  base_latency_ms = c.base_latency_ms;
}

-- The status, and the new state. `none` is a body that does not decode.
unfoldable pub update_config : Option BackendConfig → Handler → ℕ × Handler
update_config none h = (400, h)
update_config (some c) h = elim (check_backend_config c) [
  | some message ↦ (400, h)
  | none ↦ (200, install_config c h)
]

unfoldable pub get_config : Handler → BackendConfig
get_config h = record {
  semaphore_size = elim (lookup h.semaphore h.channels) [ none ↦ pos 0 | some c ↦ pos c.cap ];
  concurrent_delay_ms = h.concurrent_delay_ms;
  base_latency_ms = h.base_latency_ms;
}

unfoldable pub activate_fault : Option ℤ → Handler → ℕ × Handler
activate_fault none h = (400, h)
activate_fault (some duration_ms) h =
    if leb_ℤ duration_ms (pos 0)
    then (400, h)
    else (204, record h { unavailable = true; faults = suc h.faults })

-- A goroutine of `ActivateFault` wakes up.
unfoldable pub end_fault : Handler → Handler
end_fault h = record h { unavailable = false; faults = h.faults - 1 }
