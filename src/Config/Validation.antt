-- ===== src/Config/Validation.antt =====
-- The checks of `updateCacheConfig` in gateway/cache_config_handler.go, before it stores anything.
use distributed_caching.Base.{
  ◌≡◌, refl, ◌↔◌, Bool, true, false, ◌||◌, Option, none, some, String, arith, if◌then◌else◌,
}
use distributed_caching.Base.Int.{pos, leb_ℤ, ltb_ℤ, ◌≤ℤ◌, ◌<ℤ◌}
use distributed_caching.Config.{GatewayConfig}
use distributed_caching.Floats.{Floats}

-- The message of the first failed check; `none` lets the request pass.
abbrev pub Check : Type 0
Check = Option String

infixl 5 ◌>>◌
abbrev pub ◌>>◌ : Check → Check → Check
none >> k = k
some message >> k = some message

-- `if test { http.Error(w, message, http.StatusBadRequest); return }`
abbrev pub refuse : Bool → String → Check
refuse test message = if test then some message else none

module _ {Float : Type 0} ⦃o : Floats Float⦄ where
  abbrev one : Float
  one = o.decimal 1 0

  -- The limits on entries and times to live, and the timeout.
  unfoldable pub check_cache : GatewayConfig Float → Check
  check_cache c = do
    refuse (ltb_ℤ c.l1_max_entries (pos 0)) "L1MaxEntries must be less than zero"
    refuse (leb_ℤ c.l2_max_entries (pos 0)) "L2MaxEntries must be greater than zero"
    refuse (ltb_ℤ c.l2_max_entries c.l1_max_entries)
        "L1MaxEntries must not be greater than L2MaxEntries"
    refuse (leb_ℤ c.l1_ttl_seconds (pos 0)) "L1TTLSeconds must be greater than zero"
    refuse (leb_ℤ c.l2_ttl_seconds (pos 0)) "L2TTLSeconds must be greater than zero"
    refuse (ltb_ℤ c.l2_ttl_seconds c.l1_ttl_seconds)
        "L1TTLSeconds must not be greater than L2TTLSeconds"
    refuse (leb_ℤ c.backend_timeout_ms (pos 0)) "BackendTimeoutMs must be greater than zero"

  -- The settings of the early refresh and of the adaptive TTL.
  unfoldable pub check_adaptive : GatewayConfig Float → Check
  check_adaptive c = do
    refuse (o.lt c.early_refresh_beta (o.decimal 1 1) || o.lt (o.decimal 10 0) c.early_refresh_beta)
        "EarlyRefreshBeta must be between 0.1 and 10"
    refuse (o.le c.adaptive_ttl_min_factor (o.decimal 0 0))
        "AdaptiveTTLMinFactor must be greater than zero"
    refuse (o.lt one c.adaptive_ttl_min_factor) "AdaptiveTTLMinFactor must not be greater than 1"
    refuse (o.lt c.adaptive_ttl_max_factor one) "AdaptiveTTLMaxFactor must not be smaller than 1"
    refuse (o.lt c.adaptive_ttl_max_factor c.adaptive_ttl_min_factor)
        "AdaptiveTTLMaxFactor must not be smaller than AdaptiveTTLMinFactor"
    refuse (leb_ℤ c.adaptive_ttl_latency_threshold_ms (pos 0))
        "AdaptiveTTLLatencyThresholdMs must be greater than zero"
    refuse (leb_ℤ c.adaptive_ttl_concurrency_threshold (pos 0))
        "AdaptiveTTLConcurrencyThreshold must be greater than zero"
    refuse (leb_ℤ c.adaptive_ttl_adjustment_interval_ms (pos 0))
        "AdaptiveTTLAdjustmentIntervalMs must be greater than zero"

  unfoldable pub check_config : GatewayConfig Float → Check
  check_config c = do check_cache c; check_adaptive c

  -- A configuration that the gateway may run with.
  pub record IsValid (c : GatewayConfig Float) : Type 0 where
    pub l1_entries : pos 0 ≤ℤ c.l1_max_entries
    pub l2_entries : pos 0 <ℤ c.l2_max_entries
    pub entries : c.l1_max_entries ≤ℤ c.l2_max_entries
    pub l1_ttl : pos 0 <ℤ c.l1_ttl_seconds
    pub l2_ttl : pos 0 <ℤ c.l2_ttl_seconds
    pub ttl : c.l1_ttl_seconds ≤ℤ c.l2_ttl_seconds
    pub timeout : pos 0 <ℤ c.backend_timeout_ms
    pub beta_above : o.lt c.early_refresh_beta (o.decimal 1 1) ≡ false
    pub beta_below : o.lt (o.decimal 10 0) c.early_refresh_beta ≡ false
    pub min_above : o.le c.adaptive_ttl_min_factor (o.decimal 0 0) ≡ false
    pub min_below : o.lt one c.adaptive_ttl_min_factor ≡ false
    pub max_above : o.lt c.adaptive_ttl_max_factor one ≡ false
    pub min_max : o.lt c.adaptive_ttl_max_factor c.adaptive_ttl_min_factor ≡ false
    pub latency : pos 0 <ℤ c.adaptive_ttl_latency_threshold_ms
    pub concurrency : pos 0 <ℤ c.adaptive_ttl_concurrency_threshold
    pub interval : pos 0 <ℤ c.adaptive_ttl_adjustment_interval_ms

>>-none : (a b : Check) → (a >> b) ≡ none → (a ≡ none) × (b ≡ none)
>>-none none b h = (refl, h)
>>-none (some m) b h = cc

refuse-none : (b : Bool) (m : String) → refuse b m ≡ none → b ≡ false
refuse-none true m h = cc
refuse-none false m h = refl

module _ {Float : Type 0} ⦃o : Floats Float⦄ (c : GatewayConfig Float) where
  check_config→IsValid : check_config c ≡ none → IsValid c
  unfolding check_config check_cache check_adaptive
  check_config→IsValid h = ground arith

  IsValid→check_config : IsValid c → check_config c ≡ none
  unfolding check_config check_cache check_adaptive
  IsValid→check_config v = ground arith

  -- A configuration passes the checks of updateCacheConfig exactly if it is valid: each of the
  -- sixteen conditions on its settings holds.
  pub check_config_iff : (check_config c ≡ none) ↔ IsValid c
  check_config_iff = (check_config→IsValid, IsValid→check_config)
