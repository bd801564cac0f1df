-- ===== src/Backend/Requests/Configuration.antt =====
-- The configuration endpoint of the backend simulator.
use distributed_caching.Base.{
  ◌≡◌, ◌⊎◌, inl, inr, refl, ap, insert, none, some, lookup, lookup-insert, nat_keys, arith,
  Option-cases, ◌<◌,
}
use distributed_caching.Base.Int.{ℤ, pos, negsuc, pos_part, ◌≤ℤ◌}
use distributed_caching.Base.Tests.{==_iff}
use distributed_caching.Backend.Requests.{
  BackendConfig, Handler, update_config, get_config, check_backend_config, install_config,
  make_channel,
}

-- What the endpoint asks of a configuration.
pub record IsValidBackend (c : BackendConfig) : Type 0 where
  pub size : 0 < pos_part c.semaphore_size
  pub delay : pos 0 ≤ℤ c.concurrent_delay_ms
  pub latency : pos 0 ≤ℤ c.base_latency_ms

check_backend_config-passes : (c : BackendConfig) → IsValidBackend c → check_backend_config c ≡ none
unfolding check_backend_config
check_backend_config-passes c v = ground (arith, v.size, v.delay, v.latency)

check_backend_config-IsValid :
    (c : BackendConfig) → check_backend_config c ≡ none → IsValidBackend c
unfolding check_backend_config
check_backend_config-IsValid c passed = record {
  size = ground (arith, passed);
  delay = ground (arith, passed);
  latency = ground (arith, passed);
}

get_config-install :
    (c : BackendConfig) (h : Handler)
    → 0 < pos_part c.semaphore_size
    → get_config (install_config c h) ≡ c
unfolding get_config
get_config-install c h positive =
    let made = make_channel c.semaphore_size in
    let found : lookup h.next_channel (insert h.next_channel made h.channels) ≡ some made = ground (
      arith,
      lookup-insert h.next_channel h.next_channel made h.channels,
      ==_iff h.next_channel h.next_channel,
    ) in
    rw found (ap (λ z. record c { semaphore_size = z }) (size_back c.semaphore_size positive))
  where
    size_back : (z : ℤ) → 0 < pos_part z → pos (pos_part z) ≡ z
    size_back (pos n) above = refl
    size_back (negsuc n) above = absurd (omega arith)

-- A configuration with a semaphore size above zero and delays that are not negative is accepted
-- with status 200, and GetConfig then answers it; any other configuration is refused with status
-- 400 and changes nothing.
pub update_config-get_config :
    (c : BackendConfig) (h : Handler)
    → ((IsValidBackend c)
        × (update_config (some c) h).0 ≡ 200
        × get_config (update_config (some c) h).1 ≡ c)
      ⊎ ((¬ IsValidBackend c) × update_config (some c) h ≡ (400, h))
unfolding update_config
update_config-get_config c h = elim (Option-cases (check_backend_config c)) [
  | inl passed ↦
      let v = check_backend_config-IsValid c passed in
      rw (passed, update_config) (inl (v, refl, get_config-install c h v.size))
  | inr (m, refused) ↦
      rw (refused, update_config) (inr (λ v. cc (check_backend_config-passes c v, refused), refl))
]
