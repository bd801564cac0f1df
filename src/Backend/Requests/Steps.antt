-- ===== src/Backend/Requests/Steps.antt =====
-- Any number of requests to the backend simulator, interleaved with new configurations and faults.
-- When a request arrives, which context ends when, and what the clock says is open.
use distributed_caching.Base.{ℕ, ◌<◌, ◌≡◌, false, Option, none, some, lookup, nat_keys}
use distributed_caching.Base.Int.{ℤ}
use distributed_caching.Backend.Requests.{
  BackendConfig, Channel, Settings, entered, waiting, holding, delayed, leaving, Request, Handler,
  let_in, settings_of, set_phase, send, receive, concurrent_delay, let_out, update_config,
  activate_fault, end_fault, start_handler,
}
use distributed_caching.Time.{Time, Duration}

-- One step of a request that was let in. A request whose context ends is in `cancel`, or takes
-- `receive` early.
pub data Move (h : Handler) (i : ℕ) (r : Request) : Handler → Type 0 where
  read_settings : r.phase ≡ entered → Move h i r (set_phase i r (waiting (settings_of h)) h)
  acquire :
      (s : Settings) (c : Channel)
      → r.phase ≡ waiting s
      → lookup s.semaphore h.channels ≡ some c
      → c.len < c.cap
      → Move h i r (set_phase i r (holding s) (send s.semaphore c h))
  measure :
      (s : Settings) (c : Channel)
      → r.phase ≡ holding s
      → lookup s.semaphore h.channels ≡ some c
      → Move h i r (set_phase i r (delayed s (concurrent_delay s c)) h)
  release :
      (s : Settings) (d : Duration) (c : Channel)
      → r.phase ≡ delayed s d
      → lookup s.semaphore h.channels ≡ some c
      → 0 < c.len
      → Move h i r (set_phase i r leaving (receive s.semaphore c h))
  depart : (now : Time) → r.phase ≡ leaving → Move h i r (let_out i r now h)

pub data Step (h : Handler) : Handler → Type 0 where
  arrive :
      (i : ℕ) (now : Time)
      → h.unavailable ≡ false
      → lookup i h.requests ≡ none
      → Step h (let_in i now h)
  move :
      {t : Handler} (i : ℕ) (r : Request) → lookup i h.requests ≡ some r → Move h i r t → Step h t
  cancel :
      (i : ℕ) (r : Request) (s : Settings)
      → lookup i h.requests ≡ some r
      → r.phase ≡ waiting s
      → Step h (set_phase i r leaving h)
  configure : (c : Option BackendConfig) → Step h (update_config c h).1
  fault : (d : Option ℤ) → Step h (activate_fault d h).1
  fault_over : 0 < h.faults → Step h (end_fault h)

pub data Reach : Handler → Type 0 where
  start : Reach start_handler
  next : {h t : Handler} → Reach h → Step h t → Reach t
