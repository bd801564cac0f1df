-- ===== src/ConfigStore/Working.antt =====
-- gateway/gateway_config_store.go in a Redis that works.
use distributed_caching.Base.{
  ℕ, suc, ◌≡◌, refl, ◌∙◌, String, [], ◌∷◌, Option, none, some, if◌then◌else◌, string_keys, ◌==◌,
  Option-cases, inl, inr,
}
use distributed_caching.Base.Int.{ℤ, pos}
use distributed_caching.Config.{GatewayConfig}
use distributed_caching.Config.Validation.{check_config, check_config_iff}
use distributed_caching.Config.Defaults.{apply_adaptive_ttl_defaults_of_IsUsable, IsValid-IsUsable}
use distributed_caching.ConfigStore.{
  gateway_config_key, gateway_config_version_key, initialize_script, initialize, read_config,
  read_values, get_config, update_config, start_config, start_version,
}
use distributed_caching.Floats.{Floats, FloatOrder}
use distributed_caching.Outside.{Io, ◌>>=◌, ok, Redis, Codec, RoundTrips}

-- The number that Redis prints of a counter, and what Go reads of it.
pub record Counter (parse_int : String → Option ℤ) : Type 0 where
  pub text_of : ℕ → String
  pub parses : (n : ℕ) → parse_int (text_of n) ≡ some (pos n)
  pub text_of_one : text_of 1 ≡ "1"

abbrev get_or : Option String → String → String
get_or none t = t
get_or (some s) t = s

module _ {W Float : Type 0} (redis : Redis W Float) (value : W → String → Option String)
    {parse_int : String → Option ℤ} (counter : Counter parse_int) where
  -- The documented effect of the commands that the store uses.
  pub record Works : Type 0 where
    pub mget :
        (j k : String) (w : W) → redis.mget (j ∷ k ∷ []) w ≡ (ok (value w j ∷ value w k ∷ []), w)
    pub set_and_incr_reply :
        (k t c : String) (w : W) (n : ℕ)
        → value w c ≡ some (counter.text_of n)
        → (redis.set_and_incr k t c w).0 ≡ ok (ok (pos (suc n)))
    pub set_and_incr_value :
        (k t c : String) (w : W) (n : ℕ) (j : String)
        → value w c ≡ some (counter.text_of n)
        → value (redis.set_and_incr k t c w).1 j ≡ (
            if c == j then some (counter.text_of (suc n)) else if k == j then some t else value w j)
    pub script : (p : Io W ℤ) (w : W) → redis.run_script p w ≡ (ok (p w).0, (p w).1)
    pub call_exists :
        (k : String) (w : W)
        → redis.call_exists k w ≡ (elim (value w k) [ none ↦ pos 0 | some _ ↦ pos 1 ], w)
    pub call_set :
        (k t : String) (w : W) (j : String)
        → value (redis.call_set k t w).1 j ≡ (if k == j then some t else value w j)

module _ {W Float : Type 0} ⦃f : Floats Float⦄ (law : FloatOrder f) (redis : Redis W Float)
    (codec : Codec (GatewayConfig Float)) (value : W → String → Option String)
    (parse_int : String → Option ℤ) (counter : Counter parse_int)
    (works : Works redis value counter) (config : GatewayConfig Float)
    (trip : RoundTrips codec config) where
  abbrev pub after_update : W → W
  after_update w = (redis.set_and_incr gateway_config_key trip.text gateway_config_version_key w).1

  module _ (w : W) (n : ℕ)
      (versioned : value w gateway_config_version_key ≡ some (counter.text_of n)) where
    -- An update answers the next version.
    pub update_config-next :
        update_config redis codec parse_int config w ≡ (ok (pos (suc n)), after_update w)
    unfolding update_config
    update_config-next =
        rw (trip.written, update_config)
          (rw
            (
              works.set_and_incr_reply gateway_config_key trip.text gateway_config_version_key w n
                  versioned,
              ◌>>=◌,
            )
            refl)

    -- In a Redis that works, with floats that obey their order laws, a codec that round-trips the
    -- configuration, a configuration that passes the checks, and a stored version n, the update
    -- answers version n + 1, and a read that follows answers the configuration unchanged with
    -- version n + 1.
    pub get_config-update_config :
        check_config config ≡ none
        → ((update_config redis codec parse_int config w).0 ≡ ok (pos (suc n)))
          × ((get_config redis codec parse_int (update_config redis codec parse_int config w).1).0
              ≡ ok (config, pos (suc n)))
    unfolding get_config read_values read_config
    get_config-update_config valid =
        let usable = IsValid-IsUsable law config ((check_config_iff config).0 valid) in
        let same = apply_adaptive_ttl_defaults_of_IsUsable law config usable in
        let stored =
          works.set_and_incr_value gateway_config_key trip.text gateway_config_version_key w n
            gateway_config_key versioned in
        let counted =
          works.set_and_incr_value gateway_config_key trip.text gateway_config_version_key w n
            gateway_config_version_key versioned in
        rw update_config-next (
          refl,
          rw (works.mget, ◌>>=◌, stored, counted)
              (rw (trip.read_back, counter.parses (suc n), same, read_config) refl),
        )

  module _ (w : W) where
    start_config-value :
        (value (start_config redis codec parse_int trip.text w).1 gateway_config_key
          ≡ some trip.text)
        × (value (start_config redis codec parse_int trip.text w).1 gateway_config_version_key
            ≡ some "1")
    unfolding start_config
    start_config-value =
        let w1 = (redis.call_set gateway_config_key trip.text w).1 in
        (
          works.call_set gateway_config_version_key "1" w1 gateway_config_key
              ∙ works.call_set gateway_config_key trip.text w gateway_config_key,
          works.call_set gateway_config_version_key "1" w1 gateway_config_version_key,
        )

    start_version-value :
        (value (start_version redis codec parse_int w).1 gateway_config_key
          ≡ value w gateway_config_key)
        × (value (start_version redis codec parse_int w).1 gateway_config_version_key
            ≡ some (get_or (value w gateway_config_version_key) "1"))
    unfolding start_version
    start_version-value = elim (Option-cases (value w gateway_config_version_key)) [
      | inl absent ↦
          rw (works.call_exists gateway_config_version_key w, ◌>>=◌, start_version, absent)
            (
              works.call_set gateway_config_version_key "1" w gateway_config_key,
              works.call_set gateway_config_version_key "1" w gateway_config_version_key,
            )
      | inr (v, there) ↦
          rw (works.call_exists gateway_config_version_key w, ◌>>=◌, start_version, there)
            (refl, there)
    ]

    -- In a Redis that works, with a codec that round-trips the defaults, Initialize keeps a
    -- configuration and a version that are stored, writes version 1 beside a configuration that
    -- has none, and writes the defaults with version 1 where no configuration is stored.
    pub initialize-keeps :
        let w' = (initialize redis codec parse_int config w).1 in
        (value w' gateway_config_key ≡ some (get_or (value w gateway_config_key) trip.text))
        × (value w' gateway_config_version_key
            ≡ some (elim (value w gateway_config_key) [
              | none ↦ "1"
              | some _ ↦ get_or (value w gateway_config_version_key) "1"
            ]))
    unfolding initialize initialize_script
    initialize-keeps = elim (Option-cases (value w gateway_config_key)) [
      | inl absent ↦
          rw (trip.written, initialize)
            (rw (works.script, ◌>>=◌)
              (rw (works.call_exists gateway_config_key w, ◌>>=◌, absent) start_config-value))
      | inr (t, there) ↦
          rw (trip.written, initialize)
            (rw (works.script, ◌>>=◌)
              (rw (works.call_exists gateway_config_key w, ◌>>=◌, there)
                (start_version-value.0 ∙ there, start_version-value.1)))
    ]
