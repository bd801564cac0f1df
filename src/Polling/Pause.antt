-- ===== src/Polling/Pause.antt =====
-- The pause between two rounds of `Run`.
use distributed_caching.Base.{Bool-cases, inl, inr, arith}
use distributed_caching.Base.Int.{pos, ◌<ℤ◌, leb_ℤ}
use distributed_caching.Config.{GatewayConfig}
use distributed_caching.Polling.{poll_interval}
use distributed_caching.Time.{of_units, millisecond}

-- The pause is above zero, also where the configured milliseconds overflow.
poll_interval_pos : {Float : Type 0} (config : GatewayConfig Float) → pos 0 <ℤ poll_interval config
unfolding poll_interval
poll_interval_pos config =
    elim (Bool-cases
      (leb_ℤ (of_units config.adaptive_ttl_adjustment_interval_ms millisecond) (pos 0))) [
        | inl low ↦ rw (low, poll_interval) (omega arith)
        | inr high ↦ rw (high, poll_interval) (ground (arith, high))
      ]
