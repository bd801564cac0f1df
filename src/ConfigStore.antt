-- ===== src/ConfigStore.antt =====
-- gateway/gateway_config_store.go: the configuration that the gateways share, in Redis, with a
-- version that every update increments.
pub mod Working
use distributed_caching.Base.{
  ℕ, Bool, ◌&&◌, String, List, [], ◌∷◌, Option, none, some, if◌then◌else◌,
}
use distributed_caching.Base.Int.{ℤ, pos, leb_ℤ}
use distributed_caching.Config.{GatewayConfig, apply_adaptive_ttl_defaults}
use distributed_caching.Floats.{Floats}
use distributed_caching.Outside.{Io, pure, ◌>>=◌, ◌>>◌, Reply, ok, err, Redis, Codec}

abbrev pub gateway_config_key : String
gateway_config_key = "gateway:config:data"

abbrev pub gateway_config_version_key : String
gateway_config_version_key = "gateway:config:version"

-- `n == 0`, for the reply of EXISTS
abbrev pub is_zero : ℤ → Bool
is_zero n = leb_ℤ n (pos 0) && leb_ℤ (pos 0) n

module _ {W Float : Type 0} ⦃f : Floats Float⦄ (redis : Redis W Float)
    (codec : Codec (GatewayConfig Float)) (parse_int : String → Option ℤ) where
  -- The two branches of the script of `Initialize`, and the script.
  unfoldable pub start_config : String → Io W ℤ
  start_config text = do
    redis.call_set gateway_config_key text
    redis.call_set gateway_config_version_key "1"
    pure (pos 1)

  unfoldable pub start_version : Io W ℤ
  start_version = do
    versioned ← redis.call_exists gateway_config_version_key
    if is_zero versioned
        then (redis.call_set gateway_config_version_key "1" >> pure (pos 0))
        else pure (pos 0)

  unfoldable pub initialize_script : String → Io W ℤ
  initialize_script text = do
    stored ← redis.call_exists gateway_config_key
    if is_zero stored then start_config text else start_version

  unfoldable pub initialize : GatewayConfig Float → Io W (Reply (Unit {0}))
  initialize default_config = elim (codec.encode default_config) [
    | err e ↦ pure (err e)
    | ok text ↦ do
      reply ← redis.run_script (initialize_script text)
      elim reply [ err e ↦ pure (err e) | ok _ ↦ pure (ok tt) ]
  ]

  -- The configuration and the version, from the two texts of `MGET`.
  unfoldable pub read_config : String → String → Reply (GatewayConfig Float × ℤ)
  read_config config_json version_value = elim (codec.decode config_json) [
    | none ↦ err "decode gateway config"
    | some config ↦ elim (parse_int version_value) [
      | none ↦ err "parse gateway config version"
      | some version ↦ ok (apply_adaptive_ttl_defaults config, version)
    ]
  ]

  unfoldable pub read_values : List (Option String) → Reply (GatewayConfig Float × ℤ)
  read_values (some config_json ∷ some version_value ∷ []) = read_config config_json version_value
  read_values _ = err "gateway configuration is not initialized"

  unfoldable pub get_config : Io W (Reply (GatewayConfig Float × ℤ))
  get_config = do
    reply ← redis.mget (gateway_config_key ∷ gateway_config_version_key ∷ [])
    elim reply [ err e ↦ pure (err e) | ok values ↦ pure (read_values values) ]

  unfoldable pub update_config : GatewayConfig Float → Io W (Reply ℤ)
  update_config config = elim (codec.encode config) [
    | err e ↦ pure (err e)
    | ok text ↦ do
      reply ← redis.set_and_incr gateway_config_key text gateway_config_version_key
      elim reply [ err e ↦ pure (err e) | ok version ↦ pure version ]
  ]
