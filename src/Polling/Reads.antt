-- ===== src/Polling/Reads.antt =====
-- The controller stays sound through everything that it reads from Redis and from the backend.
use distributed_caching.Base.{
  ℕ, zero, suc, ◌≡◌, refl, subst, Bool, true, false, String, none, some, Option-cases, Bool-cases,
  inl, inr, arith, if◌then◌else◌,
}
use distributed_caching.Adaptive.{
  AdaptiveTtlSnapshot, BackendLoadSignals, apply_snapshot, set_disabled, warning, disabled,
}
use distributed_caching.Base.Int.{pos}
use distributed_caching.Config.{GatewayConfig}
use distributed_caching.Fetch.{Env}
use distributed_caching.Floats.{FloatOrder}
use distributed_caching.Outside.{Io, ◌>>=◌, Reply, Reply-cases, ok, err, Codec}
use distributed_caching.Outside.Keeping.{
  Keeping, if-Keeping, reply-Keeping, reply-kept, option-kept,
}
use distributed_caching.Polling.Sound.{
  IsSound, Sound, IsScaled, decimal-above_zero, process_signals-Sound, set_disabled-Sound,
}
use distributed_caching.Shared.{
  Control, remote, is_missing, initial_snapshot, decode_snapshot, read_again, create_snapshot,
  load_shared_snapshot, synchronize_from_redis, save_own, update_from_signals, update_as_owner,
  try_acquire_controller_lock, update_with_lock, update_with, update_shared_state,
  adaptive_ttl_snapshot_redis_key, save_shared_snapshot,
}
use distributed_caching.Shared.Reset.{
  reset_snapshot, reset_as_owner, reset_with_lock, reset_with, reset_round, reset,
}
use distributed_caching.Time.{Duration}

module _ {W Float : Type 0} (env : Env W Float) (law : FloatOrder env.floats)
    (codec : Codec (AdaptiveTtlSnapshot Float)) (signals : Io W (Reply (BackendLoadSignals Float)))
    -- A factor that was read from JSON is a number.
    (numeric : (text : String) (s : AdaptiveTtlSnapshot Float)
      → codec.decode text ≡ some s
      → env.floats.is_number s.factor ≡ true) where
  open env use {floats, redis}

  abbrev SoundReply : Reply (AdaptiveTtlSnapshot Float) → Type 0
  SoundReply (ok s) = IsSound ⦃o = floats⦄ s.factor s.state
  SoundReply (err _) = Unit {0}

  decode_snapshot-Sound : (text : String) → SoundReply (decode_snapshot env codec signals text)
  unfolding decode_snapshot
  decode_snapshot-Sound text = elim (Option-cases (codec.decode text)) [
    | inl bad ↦ rw (bad, decode_snapshot) tt
    | inr (r, good) ↦ elim (Bool-cases (floats.le r.factor (floats.decimal 0 0))) [
      | inl low ↦ rw (good, decode_snapshot) (rw low tt)
      | inr high ↦ elim (Bool-cases (is_missing r.state)) [
        | inl missing ↦ rw (good, decode_snapshot) (rw (high, missing) tt)
        | inr named ↦
            let n = numeric text r good in
            rw (good, decode_snapshot)
              (rw (high, named) (record { positive = ground (arith, high, n); named = named }))
      ]
    ]
  ]

  abbrev SoundControl : Control W Float → Type 0
  SoundControl s = Sound ⦃o = floats⦄ s.controller

  remote-Sound : {A : Type 0} (m : Io W A) → Keeping SoundControl (remote m)
  remote-Sound m s h = h

  initial_snapshot-Sound : SoundReply (ok (initial_snapshot env codec signals))
  unfolding is_missing
  initial_snapshot-Sound = record {
    positive = decimal-above_zero ⦃o = floats⦄ law 10 1 (omega arith) (omega arith);
    named = refl;
  }

  read_again-Sound : (w : W) → SoundReply (read_again env codec signals w).0
  unfolding read_again
  read_again-Sound w = elim (Reply-cases (redis.get adaptive_ttl_snapshot_redis_key w).0) [
    | inr (_, e) ↦ rw (e, read_again, ◌>>=◌) tt
    | inl (none, e) ↦ rw (e, read_again, ◌>>=◌) tt
    | inl (some text, e) ↦ rw (e, read_again, ◌>>=◌) (decode_snapshot-Sound text)
  ]

  create_snapshot-Sound : (w : W) → SoundReply (create_snapshot env codec signals w).0
  unfolding create_snapshot
  create_snapshot-Sound w = elim (Reply-cases (codec.encode (initial_snapshot env codec signals))) [
    | inr (_, e) ↦ rw (e, create_snapshot) tt
    | inl (text, e) ↦
        let w' = (redis.set_nx adaptive_ttl_snapshot_redis_key text (pos 0) w).1 in
        elim (Reply-cases (redis.set_nx adaptive_ttl_snapshot_redis_key text (pos 0) w).0) [
          | inr (_, f) ↦ rw (e, create_snapshot) (rw (f, ◌>>=◌) tt)
          | inl (true, f) ↦ rw (e, create_snapshot) (rw (f, ◌>>=◌) initial_snapshot-Sound)
          | inl (false, f) ↦ rw (e, create_snapshot) (rw (f, ◌>>=◌) (read_again-Sound w'))
        ]
  ]

  load_shared_snapshot-Sound : (w : W) → SoundReply (load_shared_snapshot env codec signals w).0
  unfolding load_shared_snapshot
  load_shared_snapshot-Sound w =
      elim (Reply-cases (redis.get adaptive_ttl_snapshot_redis_key w).0) [
        | inr (_, e) ↦ rw (e, load_shared_snapshot, ◌>>=◌) tt
        | inl (none, e) ↦
            rw (e, load_shared_snapshot, ◌>>=◌)
              (create_snapshot-Sound (redis.get adaptive_ttl_snapshot_redis_key w).1)
        | inl (some text, e) ↦ rw (e, load_shared_snapshot, ◌>>=◌) (decode_snapshot-Sound text)
      ]

  synchronize_from_redis-Sound : Keeping SoundControl (synchronize_from_redis env codec signals)
  unfolding synchronize_from_redis apply_snapshot
  synchronize_from_redis-Sound s h =
      let (reply, w) = load_shared_snapshot env codec signals s.world in
      reply-kept SoundControl reply _ _ (λ e. h)
        (λ shared answered.
          let sound = subst SoundReply answered (load_shared_snapshot-Sound s.world) in
          record { positive = sound.positive; named = sound.named })

  save_own-Sound : Keeping SoundControl (save_own env codec signals)
  unfolding save_own
  save_own-Sound s h = h

  module _ (config : GatewayConfig Float) (scaled : IsScaled ⦃o = floats⦄ config) where
    update_from_signals-Sound : Keeping SoundControl (update_from_signals env codec signals config)
    unfolding update_from_signals
    update_from_signals-Sound s h =
        let (reply, w) = signals s.world in
        reply-kept SoundControl reply _ _ (λ e. h)
          (λ read answered.
            save_own-Sound _
              (process_signals-Sound ⦃o = floats⦄ law config scaled read s.controller h))

    update_as_owner-Sound : Keeping SoundControl (update_as_owner env codec signals config)
    unfolding update_as_owner
    update_as_owner-Sound s h =
        let (reply, t) = synchronize_from_redis env codec signals s in
        reply-Keeping SoundControl reply _ _ (λ e t h. h)
          (λ _.
            if-Keeping SoundControl config.adaptive_ttl_enabled _ _ update_from_signals-Sound
              (λ s h.
                save_own-Sound (record s { controller = set_disabled ⦃o = floats⦄ s.controller })
                  (set_disabled-Sound ⦃o = floats⦄ law s.controller)))
          t (synchronize_from_redis-Sound s h)

    update_with-Sound :
        (r : Reply (String × Bool)) → Keeping SoundControl (update_with env codec signals config r)
    unfolding update_with update_with_lock
    update_with-Sound (err e) s h = h
    update_with-Sound (ok (token, false)) s h = synchronize_from_redis-Sound s h
    update_with-Sound (ok (token, true)) s h = update_as_owner-Sound s h

    pub update_shared_state-Sound :
        Keeping SoundControl (update_shared_state env codec signals config)
    unfolding update_shared_state
    update_shared_state-Sound s h =
        let (reply, w) = try_acquire_controller_lock env codec signals s.world in
        update_with-Sound reply (record s { world = w }) h

  -- `Reset` keeps any controller sound, in whatever round it ends.
  module _ (wait : Duration → Io W Bool) (enabled : Bool) where
    reset_as_owner-Sound : Keeping SoundControl (reset_as_owner env codec signals wait enabled)
    unfolding reset_as_owner apply_snapshot is_missing
    reset_as_owner-Sound s h =
        let (reply, w) =
          save_shared_snapshot env codec signals (reset_snapshot env codec signals wait enabled)
            s.world in
        reply-kept SoundControl reply _ _ (λ e. h)
          (λ _ _. record {
            positive = decimal-above_zero ⦃o = floats⦄ law 10 1 (omega arith) (omega arith);
            named = by_state enabled;
          })
      where
        by_state : (b : Bool) → is_missing (if b then warning else disabled) ≡ false
        by_state true = refl
        by_state false = refl

    reset_with-Sound :
        (r : Reply (String × Bool))
        → Keeping SoundControl (reset_with env codec signals wait enabled r)
    unfolding reset_with reset_with_lock
    reset_with-Sound (err e) s h = h
    reset_with-Sound (ok (token, false)) s h = h
    reset_with-Sound (ok (token, true)) s h = reset_as_owner-Sound s h

    pub reset-Sound :
        (rounds : ℕ) → Keeping SoundControl (reset env codec signals wait rounds enabled)
    unfolding reset reset_round
    reset-Sound zero s h = h
    reset-Sound (suc rounds) s h =
        let (reply, w) = try_acquire_controller_lock env codec signals s.world in
        let one = reset_with-Sound reply (record s { world = w }) h in
        option-kept SoundControl (reset_round env codec signals wait enabled s).0 _ _
          (reset-Sound rounds _ one) (λ a. one)
