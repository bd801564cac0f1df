-- ===== src/Polling/Sound.antt =====
-- What holds of the controller of gateway/adaptive_ttl_controller.go whatever it reads: its factor
-- is above zero, and its state is not the empty text.
use distributed_caching.Base.{ℕ, ◌<◌, ◌≤◌, ◌≡◌, refl, Bool, true, false, arith, ◌&&◌, if◌then◌else◌}
use distributed_caching.Adaptive.{
  AdaptiveTtlState, disabled, stable, warning, congested, other, BackendLoadSignals,
  AdaptiveTtlController, clamp_adaptive_ttl_factor, count_reading, process_signals,
  classify_backend_load, adaptive_ttl_increase_step, adaptive_ttl_strong_increase_step,
  set_disabled,
}
use distributed_caching.Config.{GatewayConfig}
use distributed_caching.Floats.{Floats, FloatOrder}
use distributed_caching.Shared.{is_missing}
use distributed_caching.Shared.Fresh.{not_le_of_lt}

module _ {Float : Type 0} ⦃o : Floats Float⦄ where
  abbrev pub above_zero : Float → Bool
  above_zero x = if o.le x (o.decimal 0 0) then false else o.is_number x

  -- The limits can be used, and are numbers.
  pub record IsScaled (config : GatewayConfig Float) : Type 0 where
    pub min_above : above_zero config.adaptive_ttl_min_factor ≡ true
    pub max_above : above_zero config.adaptive_ttl_max_factor ≡ true

  pub record IsSound (factor : Float) (state : AdaptiveTtlState) : Type 0 where
    pub positive : above_zero factor ≡ true
    pub named : is_missing state ≡ false

  abbrev pub Sound : AdaptiveTtlController Float → Type 0
  Sound c = IsSound c.current_factor c.current_state

  above_zero-number : (x : Float) → above_zero x ≡ true → o.is_number x ≡ true
  above_zero-number x h = ground arith

  if-Sound :
      (b : Bool) (c d : AdaptiveTtlController Float)
      → Sound c
      → Sound d
      → Sound (if b then c else d)
  if-Sound true c d h g = h
  if-Sound false c d h g = g

module _ {Float : Type 0} ⦃o : Floats Float⦄ (law : FloatOrder o) where
  pub decimal-above_zero : (n k : ℕ) → 0 < n → k ≤ 3 → above_zero (o.decimal n k) ≡ true
  decimal-above_zero n k h g =
      ground (arith, not_le_of_lt law _ _ (law.decimal_pos n k h g), law.decimal_is_number n k)

  pub clamp-above_zero :
      (x lo hi : Float)
      → o.is_number x ≡ true
      → above_zero lo ≡ true
      → above_zero hi ≡ true
      → above_zero (clamp_adaptive_ttl_factor x lo hi) ≡ true
  unfolding clamp_adaptive_ttl_factor
  clamp-above_zero x lo hi n low high =
      ground (arith, law.le_of_not_lt x lo, law.le_trans lo x (o.decimal 0 0))

  classify-named :
      (config : GatewayConfig Float) (signals : BackendLoadSignals Float)
      → is_missing (classify_backend_load config signals).0 ≡ false
  unfolding classify_backend_load is_missing
  classify-named config signals = ground arith

  module _ (config : GatewayConfig Float) (scaled : IsScaled config) where
    open scaled use {min_above, max_above}

    count_reading-Sound :
        (reading : AdaptiveTtlState × Bool × Bool) (c : AdaptiveTtlController Float)
        → Sound c
        → Sound (count_reading config reading c)
    unfolding count_reading
    count_reading-Sound (congested, latency, concurrency) c h =
        if-Sound _ _ _
          (record {
            positive = clamp-above_zero _ _ _ (raised (latency && concurrency)) min_above max_above;
            named = h.named;
          })
          (record { positive = h.positive; named = h.named })
      where
        raised :
            (b : Bool)
            → o.is_number (
                o.add c.current_factor
                  (if b then adaptive_ttl_strong_increase_step else adaptive_ttl_increase_step))
              ≡ true
        raised true =
            law.add_is_number c.current_factor 25 2 (above_zero-number c.current_factor h.positive)
        raised false =
            law.add_is_number c.current_factor 15 2 (above_zero-number c.current_factor h.positive)
    count_reading-Sound (stable, _, _) c h =
        let n =
          law.sub_is_number c.current_factor 2 1 (above_zero-number c.current_factor h.positive) in
        if-Sound _ _ _
          (record { positive = clamp-above_zero _ _ _ n min_above max_above; named = h.named })
          (record { positive = h.positive; named = h.named })
    count_reading-Sound (warning, _, _) c h = h
    count_reading-Sound (disabled, _, _) c h = h
    count_reading-Sound (other _, _, _) c h = h

    pub process_signals-Sound :
        (signals : BackendLoadSignals Float) (c : AdaptiveTtlController Float)
        → Sound c
        → Sound (process_signals config signals c)
    unfolding process_signals
    process_signals-Sound signals c h =
        count_reading-Sound (classify_backend_load config signals) _ (record {
          positive =
              clamp-above_zero c.current_factor _ _ (above_zero-number c.current_factor h.positive)
                min_above max_above;
          named = classify-named config signals;
        })

  pub set_disabled-Sound : (c : AdaptiveTtlController Float) → Sound (set_disabled c)
  unfolding set_disabled is_missing
  set_disabled-Sound c = record {
    positive = decimal-above_zero 10 1 (omega arith) (omega arith);
    named = refl;
  }
