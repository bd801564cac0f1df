-- ===== src/Polling/Kept.antt =====
-- What a gateway keeps from its start on, whatever the requests, the new configurations and the
-- rounds of its controller read.
use distributed_caching.Base.{
  ℕ, ◌≡◌, refl, subst, Bool, String, List, [], ◌∷◌, Option, Option-cases, inl, inr, arith,
}
use distributed_caching.Base.Int.{ℤ}
use distributed_caching.Adaptive.{AdaptiveTtlController, AdaptiveTtlSnapshot, BackendLoadSignals}
use distributed_caching.Config.{GatewayConfig}
use distributed_caching.Config.Defaults.{IsValid-IsUsable}
use distributed_caching.Config.Validation.{check_config, check_config_iff}
use distributed_caching.ConfigHandler.{
  install, reset_controller, apply_stored, store_checked, update_cache_config,
}
use distributed_caching.ConfigStore.{initialize, get_config, update_config}
use distributed_caching.Fetch.{Env}
use distributed_caching.Floats.{FloatOrder}
use distributed_caching.Gateway.{Server, controlling, adopt_config, current_gateway_config}
use distributed_caching.Gateway.Keeps.{Holds, serve_http-Keeps, current_gateway_config-Keeps}
use distributed_caching.Gateway.Start.{new_handler, start_handler_with, default_config}
use distributed_caching.L1.Keeps.{clear_l1-IsLinked}
use distributed_caching.L2.{clear_l2}
use distributed_caching.Outside.{Io, Reply, ok, err, Codec}
use distributed_caching.Polling.{Gauges, poll, poll_with, report, update_metrics}
use distributed_caching.Polling.History.{
  Call, request, change, round, elsewhere, after_call, after_calls, NumericCodecs, Known,
  ScaledReply, get_config-IsScaled,
}
use distributed_caching.Polling.Reads.{update_shared_state-Sound, reset-Sound}
use distributed_caching.Polling.Sound.{Sound, IsScaled, decimal-above_zero}
use distributed_caching.Shared.Reset.{reset}
use distributed_caching.L1.{clear_l1, empty}
use distributed_caching.Shared.{is_missing, Control, update_shared_state}
use distributed_caching.Outside.Keeping.{Keeping}
use distributed_caching.Time.{Duration}

module _ {W Float : Type 0} (env : Env W Float) (config_codec : Codec (GatewayConfig Float))
    (parse_int : String → Option ℤ) (snapshot_codec : Codec (AdaptiveTtlSnapshot Float))
    (signals : Io W (Reply (BackendLoadSignals Float))) (wait : Duration → Io W Bool)
    (set_gauges : Gauges Float → Io W (Unit {0})) (law : FloatOrder env.floats)
    (numeric : NumericCodecs env config_codec parse_int snapshot_codec signals wait
      set_gauges) where
  open env use {floats, clock, redis, codec}
  open numeric use {snapshot_factor, config_min, config_max}

  abbrev Q : GatewayConfig Float → AdaptiveTtlController Float → Type 0
  Q = Known env config_codec parse_int snapshot_codec signals wait set_gauges

  -- The first level is linked, the limits can be used and the controller is sound.
  abbrev pub Kept : Server W Float → Type 0
  Kept = Holds env Q

  reads :
      (config : GatewayConfig Float) (version : ℤ) (s : Server W Float)
      → Kept s
      → (get_config ⦃f = floats⦄ redis config_codec parse_int s.world).0 ≡ ok (config, version)
      → Q config s.controller
  reads config version s inv e = (
    subst
        (ScaledReply env config_codec parse_int snapshot_codec signals wait set_gauges law numeric)
        e
        (get_config-IsScaled env config_codec parse_int snapshot_codec signals wait set_gauges law
          numeric s.world),
    inv.1.1,
  )

  controlling-Kept :
      {A : Type 0} (m : Io (Control W Float) A)
      → Keeping (λ t. Sound ⦃o = floats⦄ t.controller) m
      → Keeping Kept (controlling m)
  controlling-Kept m h s inv =
      (inv.0, (inv.1.0, h (record { controller = s.controller; world = s.world }) inv.1.1))

  -- The configuration that is answered is the one in use.
  abbrev InUse : Reply (GatewayConfig Float) × Server W Float → Type 0
  InUse (ok config, t) = t.gateway_config ≡ config
  InUse (err _, t) = Unit {0}

  current_gateway_config-InUse :
      (s : Server W Float) → InUse (current_gateway_config env config_codec parse_int s)
  unfolding current_gateway_config
  current_gateway_config-InUse s =
      let (reply, w) = get_config ⦃f = floats⦄ redis config_codec parse_int s.world in
      by_reply reply w
    where
      by_reply :
          (r : Reply (GatewayConfig Float × ℤ)) (w : W)
          → InUse (elim r as (λ r. Reply (GatewayConfig Float) × Server W Float) [
            | err e ↦ (err e, record s { world = w })
            | ok (config, version) ↦
                let t = adopt_config env config version (record s { world = w }) in
                (ok t.gateway_config, t)
          ])
      by_reply (err e) w = tt
      by_reply (ok (config, version)) w = refl

  report-Kept :
      (config : GatewayConfig Float) (r : Reply (Unit {0}))
      → Keeping Kept
          (report env config_codec parse_int snapshot_codec signals wait set_gauges config r)
  unfolding report update_metrics
  report-Kept config (err e) s inv = inv
  report-Kept config (ok _) s inv = inv

  poll_with-Kept :
      (r : Reply (GatewayConfig Float)) (s : Server W Float)
      → Kept s
      → InUse (r, s)
      → Kept (poll_with env config_codec parse_int snapshot_codec signals wait set_gauges r s).1
  unfolding poll_with
  poll_with-Kept (err e) s inv used = inv
  poll_with-Kept (ok config) s inv used =
      let scaled = subst (λ c. IsScaled ⦃o = floats⦄ c) used inv.1.0 in
      let update = update_shared_state env snapshot_codec signals config in
      let (result, t) = controlling update s in
      report-Kept config result t (
        controlling-Kept update
          (update_shared_state-Sound env law snapshot_codec signals snapshot_factor config scaled) s
          inv)

  poll-Kept : Keeping Kept (poll env config_codec parse_int snapshot_codec signals wait set_gauges)
  unfolding poll
  poll-Kept s inv =
      let (reply, t) = current_gateway_config env config_codec parse_int s in
      poll_with-Kept reply t (current_gateway_config-Keeps env Q config_codec parse_int reads s inv)
        (current_gateway_config-InUse s)

  reset_controller-Kept :
      (rounds : ℕ) (config : GatewayConfig Float) (r : Reply (Unit {0}))
      → Keeping Kept
          (reset_controller env config_codec parse_int snapshot_codec signals wait rounds config r)
  unfolding reset_controller
  reset_controller-Kept rounds config (err e) s inv = inv
  reset_controller-Kept rounds config (ok _) s inv =
      controlling-Kept (reset env snapshot_codec signals wait rounds config.adaptive_ttl_enabled)
        (reset-Sound env law snapshot_codec signals snapshot_factor wait config.adaptive_ttl_enabled
          rounds)
        s inv

  apply_stored-Kept :
      (rounds : ℕ) (config : GatewayConfig Float) (r : Reply ℤ)
      → IsScaled ⦃o = floats⦄ config
      → Keeping Kept
          (apply_stored env config_codec parse_int snapshot_codec signals wait rounds config r)
  unfolding apply_stored install
  apply_stored-Kept rounds config (err e) scaled s inv = inv
  apply_stored-Kept rounds config (ok version) scaled s inv =
      let (cleared, w) = clear_l2 floats clock redis codec s.world in
      let t : Server W Float = record s {
        gateway_config = config;
        config_version = version;
        l1 = clear_l1 s.l1;
        world = w;
      } in
      reset_controller-Kept rounds config cleared t (clear_l1-IsLinked s.l1, (scaled, inv.1.1))

  update_cache_config-Kept :
      (rounds : ℕ) (body : String)
      → Keeping Kept (
          update_cache_config env config_codec parse_int snapshot_codec signals wait rounds
            (config_codec.decode body))
  unfolding update_cache_config store_checked
  update_cache_config-Kept rounds body s inv = elim (Option-cases (config_codec.decode body)) [
    | inl bad ↦ rw (bad, update_cache_config) inv
    | inr (c, good) ↦ elim (Option-cases (check_config ⦃o = floats⦄ c)) [
      | inr (m, refused) ↦ rw (good, update_cache_config) (rw (refused, store_checked) inv)
      | inl passed ↦
          let (stored, w) = update_config ⦃f = floats⦄ redis config_codec parse_int c s.world in
          let valid = (check_config_iff ⦃o = floats⦄ c).0 passed in
          let usable = IsValid-IsUsable ⦃o = floats⦄ law c valid in
          let scaled : IsScaled ⦃o = floats⦄ c = record {
            min_above = ground (arith, usable.min_factor, config_min body c good);
            max_above = ground (arith, usable.max_factor, config_max body c good);
          } in
          rw (good, update_cache_config)
            (rw (passed, store_checked)
              (apply_stored-Kept rounds c stored scaled (record s { world = w }) inv))
    ]
  ]

  after_call-Kept :
      (c : Call W) (s : Server W Float)
      → Kept s
      → Kept (after_call env config_codec parse_int snapshot_codec signals wait set_gauges c s)
  after_call-Kept (request rounds key) s inv =
      serve_http-Keeps env Q config_codec parse_int reads rounds key s inv
  after_call-Kept (change rounds body) s inv = update_cache_config-Kept rounds body s inv
  after_call-Kept round s inv = poll-Kept s inv
  after_call-Kept (elsewhere w) s inv = inv

  after_calls-Kept :
      (calls : List (Call W)) (s : Server W Float)
      → Kept s
      → Kept (after_calls env config_codec parse_int snapshot_codec signals wait set_gauges calls s)
  after_calls-Kept [] s inv = inv
  after_calls-Kept (c ∷ calls) s inv =
      after_calls-Kept calls
        (after_call env config_codec parse_int snapshot_codec signals wait set_gauges c s)
        (after_call-Kept c s inv)

  abbrev KeptReply : Reply (Server W Float) → Type 0
  KeptReply (ok s) = Kept s
  KeptReply (err _) = Unit {0}

  start_handler_with-Kept :
      (i : Reply (Unit {0})) (r : Reply (GatewayConfig Float × ℤ)) (w : W)
      → ScaledReply env config_codec parse_int snapshot_codec signals wait set_gauges law numeric r
      → KeptReply (start_handler_with env config_codec parse_int i r w)
  unfolding start_handler_with is_missing clear_l1
  start_handler_with-Kept (err e) r w h = tt
  start_handler_with-Kept (ok _) (err e) w h = tt
  start_handler_with-Kept (ok _) (ok (config, version)) w h = (
    clear_l1-IsLinked empty,
    (
      h,
      record {
        positive = decimal-above_zero ⦃o = floats⦄ law 10 1 (omega arith) (omega arith);
        named = refl;
      },
    ),
  )

  new_handler-Kept :
      (w : W) (s : Server W Float) → new_handler env config_codec parse_int w ≡ ok s → Kept s
  unfolding new_handler
  new_handler-Kept w s e =
      let default = default_config env config_codec parse_int in
      let (started, w1) = initialize ⦃f = floats⦄ redis config_codec parse_int default w in
      let (reply, w2) = get_config ⦃f = floats⦄ redis config_codec parse_int w1 in
      subst KeptReply e (
        start_handler_with-Kept started reply w2 (
          get_config-IsScaled env config_codec parse_int snapshot_codec signals wait set_gauges law
            numeric w1))

  -- If floats obey their order laws and no factor that is read from JSON is NaN, then after
  -- NewHandler without error and any list of requests, changes of the configuration and rounds of
  -- the controller, one after another, with any changes of the world by others in between, the map
  -- and the list of the first level are linked, the limits of the factor are above zero, the
  -- controller's factor is above zero, and its state is not the empty text.
  pub after_calls_from_start :
      (w : W) (s : Server W Float) (calls : List (Call W))
      → new_handler env config_codec parse_int w ≡ ok s
      → Kept (after_calls env config_codec parse_int snapshot_codec signals wait set_gauges calls s)
  after_calls_from_start w s calls e = after_calls-Kept calls s (new_handler-Kept w s e)
