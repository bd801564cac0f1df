-- ===== src/ConfigHandler/Fleet/Stored.antt =====
-- The configuration in a Redis that works: what `Get` and `Update` of
-- gateway/gateway_config_store.go answer and leave.
use distributed_caching.Base.{ℕ, suc, ◌≡◌, refl, String, Option, none, some, nat_keys, string_keys}
use distributed_caching.Base.Int.{ℤ, pos}
use distributed_caching.Config.{GatewayConfig}
use distributed_caching.Config.Defaults.{
  IsUsable, IsValid-IsUsable, apply_adaptive_ttl_defaults_of_IsUsable,
}
use distributed_caching.Config.Validation.{check_config, check_config_iff}
use distributed_caching.ConfigStore.{
  get_config, update_config, read_values, read_config, gateway_config_key,
  gateway_config_version_key,
}
use distributed_caching.ConfigStore.Working.{Counter, Works, update_config-next}
use distributed_caching.Fetch.{Env}
use distributed_caching.Floats.{FloatOrder}
use distributed_caching.Outside.{ok, ◌>>=◌, Codec, RoundTrips}

module _ {W Float : Type 0} (env : Env W Float) (config_codec : Codec (GatewayConfig Float))
    (parse_int : String → Option ℤ) (value : W → String → Option String)
    (counter : Counter parse_int) where
  open env use {floats, redis}

  -- Redis has the latest configuration and its version.
  pub record IsStored (w : W) (latest : GatewayConfig Float) (version : ℕ) : Type 0 where
    pub text : String
    pub has_text : value w gateway_config_key ≡ some text
    pub decodes : config_codec.decode text ≡ some latest
    pub usable : IsUsable ⦃o = floats⦄ latest
    pub has_version : value w gateway_config_version_key ≡ some (counter.text_of version)

  module _ (works : Works redis value counter) (law : FloatOrder floats) where
    -- A read of the store answers the latest configuration and version, and writes nothing.
    pub get_config-stored :
        (w : W) (latest : GatewayConfig Float) (n : ℕ)
        → IsStored w latest n
        → get_config ⦃f = floats⦄ redis config_codec parse_int w ≡ (ok (latest, pos n), w)
    unfolding get_config read_values read_config
    get_config-stored w latest n h =
        let same = apply_adaptive_ttl_defaults_of_IsUsable ⦃o = floats⦄ law latest h.usable in
        rw (works.mget, ◌>>=◌, h.has_text, h.has_version)
          (rw (h.decodes, counter.parses n, same, read_config) refl)

    -- A write of the store answers the next version, and leaves what it wrote.
    pub update_config-stored :
        (w : W) (old new : GatewayConfig Float) (n : ℕ)
        → RoundTrips config_codec new
        → check_config ⦃o = floats⦄ new ≡ none
        → IsStored w old n
        → ((update_config ⦃f = floats⦄ redis config_codec parse_int new w).0 ≡ ok (pos (suc n)))
          × IsStored (update_config ⦃f = floats⦄ redis config_codec parse_int new w).1 new (suc n)
    update_config-stored w old new n trip valid h =
        let usable =
          IsValid-IsUsable ⦃o = floats⦄ law new ((check_config_iff ⦃o = floats⦄ new).0 valid) in
        let next =
          update_config-next ⦃f = floats⦄ law redis config_codec value parse_int counter works new
            trip w n h.has_version in
        rw next (
          refl,
          record {
            text = trip.text;
            has_text =
                works.set_and_incr_value gateway_config_key trip.text gateway_config_version_key w n
                  gateway_config_key h.has_version;
            decodes = trip.read_back;
            usable = usable;
            has_version =
                works.set_and_incr_value gateway_config_key trip.text gateway_config_version_key w n
                  gateway_config_version_key h.has_version;
          },
        )
