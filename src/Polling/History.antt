-- ===== src/Polling/History.antt =====
-- A gateway from its start on: requests, new configurations and rounds of the controller, in any
-- order, while others change the world.
use distributed_caching.Base.{
  ℕ, ◌≡◌, Bool, true, String, List, [], ◌∷◌, Option, none, some, Option-cases, inl, inr, arith,
}
use distributed_caching.Base.Int.{ℤ}
use distributed_caching.Adaptive.{AdaptiveTtlController, AdaptiveTtlSnapshot, BackendLoadSignals}
use distributed_caching.Config.{GatewayConfig, apply_adaptive_ttl_defaults}
use distributed_caching.ConfigHandler.{update_cache_config}
use distributed_caching.ConfigStore.{
  get_config, read_values, read_config, gateway_config_key, gateway_config_version_key,
}
use distributed_caching.Fetch.{Env}
use distributed_caching.Floats.{FloatOrder}
use distributed_caching.Gateway.{Server, serve_http}
use distributed_caching.Outside.{Io, Reply, Reply-cases, ok, err, Codec, ◌>>=◌}
use distributed_caching.Polling.{Gauges, poll}
use distributed_caching.Polling.Sound.{Sound, IsScaled, decimal-above_zero}
use distributed_caching.Time.{Duration}

pub data Call (W : Type 0) : Type 0 where
  request : ℕ → String → Call W
  change : ℕ → String → Call W  -- the body of a request that changes the configuration
  round : Call W  -- one round of `Run`
  elsewhere : W → Call W  -- what others made of the world

module _ {W Float : Type 0} (env : Env W Float) (config_codec : Codec (GatewayConfig Float))
    (parse_int : String → Option ℤ) (snapshot_codec : Codec (AdaptiveTtlSnapshot Float))
    (signals : Io W (Reply (BackendLoadSignals Float))) (wait : Duration → Io W Bool)
    (set_gauges : Gauges Float → Io W (Unit {0})) where
  open env use {floats, redis}

  abbrev pub after_call : Call W → Server W Float → Server W Float
  after_call (request rounds key) s = (serve_http env config_codec parse_int rounds key s).1
  after_call (change rounds body) s =
      (update_cache_config env config_codec parse_int snapshot_codec signals wait rounds
        (config_codec.decode body) s).1
  after_call round s = (poll env config_codec parse_int snapshot_codec signals wait set_gauges s).1
  after_call (elsewhere w) s = record s { world = w }

  abbrev pub after_calls : List (Call W) → Server W Float → Server W Float
  after_calls [] s = s
  after_calls (c ∷ calls) s = after_calls calls (after_call c s)

  -- JSON has no number that is not a number.
  pub record NumericCodecs : Type 0 where
    pub snapshot_factor :
        (text : String) (s : AdaptiveTtlSnapshot Float)
        → snapshot_codec.decode text ≡ some s
        → floats.is_number s.factor ≡ true
    pub config_min :
        (text : String) (c : GatewayConfig Float)
        → config_codec.decode text ≡ some c
        → floats.is_number c.adaptive_ttl_min_factor ≡ true
    pub config_max :
        (text : String) (c : GatewayConfig Float)
        → config_codec.decode text ≡ some c
        → floats.is_number c.adaptive_ttl_max_factor ≡ true

  -- The limits of the configuration can be used, and the controller is sound.
  abbrev pub Known : GatewayConfig Float → AdaptiveTtlController Float → Type 0
  Known config c = IsScaled ⦃o = floats⦄ config × Sound ⦃o = floats⦄ c

  module _ (law : FloatOrder floats) (numeric : NumericCodecs) where
    open numeric use {snapshot_factor, config_min, config_max}

    defaults-IsScaled :
        (text : String) (c : GatewayConfig Float)
        → config_codec.decode text ≡ some c
        → IsScaled ⦃o = floats⦄ (apply_adaptive_ttl_defaults ⦃o = floats⦄ c)
    unfolding apply_adaptive_ttl_defaults
    defaults-IsScaled text c e = record {
      min_above = ground (
        arith,
        config_min text c e,
        decimal-above_zero ⦃o = floats⦄ law 75 2 (omega arith) (omega arith),
      );
      max_above = ground (
        arith,
        config_max text c e,
        decimal-above_zero ⦃o = floats⦄ law 40 1 (omega arith) (omega arith),
      );
    }

    -- What the store answers.
    abbrev pub ScaledReply : Reply (GatewayConfig Float × ℤ) → Type 0
    ScaledReply (ok (config, version)) = IsScaled ⦃o = floats⦄ config
    ScaledReply (err _) = Unit {0}

    read_config-IsScaled :
        (text version : String)
        → ScaledReply (read_config ⦃f = floats⦄ redis config_codec parse_int text version)
    unfolding read_config
    read_config-IsScaled text version = elim (Option-cases (config_codec.decode text)) [
      | inl bad ↦ rw (bad, read_config) tt
      | inr (c, good) ↦ elim (Option-cases (parse_int version)) [
        | inl bad ↦ rw (good, read_config) (rw bad tt)
        | inr (n, parsed) ↦ rw (good, read_config) (rw parsed (defaults-IsScaled text c good))
      ]
    ]

    read_values-IsScaled :
        (values : List (Option String))
        → ScaledReply (read_values ⦃f = floats⦄ redis config_codec parse_int values)
    unfolding read_values
    read_values-IsScaled (some text ∷ some version ∷ []) = read_config-IsScaled text version
    read_values-IsScaled [] = tt
    read_values-IsScaled (none ∷ values) = tt
    read_values-IsScaled (some text ∷ []) = tt
    read_values-IsScaled (some text ∷ none ∷ values) = tt
    read_values-IsScaled (some text ∷ some version ∷ v ∷ values) = tt

    pub get_config-IsScaled :
        (w : W) → ScaledReply (get_config ⦃f = floats⦄ redis config_codec parse_int w).0
    unfolding get_config
    get_config-IsScaled w =
        elim (Reply-cases (redis.mget (gateway_config_key ∷ gateway_config_version_key ∷ []) w).0) [
          | inr (_, e) ↦ rw (e, get_config, ◌>>=◌) tt
          | inl (values, e) ↦ rw (e, get_config, ◌>>=◌) (read_values-IsScaled values)
        ]
