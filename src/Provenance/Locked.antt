-- ===== src/Provenance/Locked.antt =====
-- The fetches under the lock of gateway/distributed_lock.go.
use distributed_caching.Base.{
  ℕ, zero, suc, ◌≡◌, refl, subst, ◌∙◌, ap, Bool, true, false, ◌&&◌, String, Option, none, some,
  if◌then◌else◌, string_keys,
}
use distributed_caching.Base.Int.{pos, leb_ℤ, wrap64, ◌+ℤ◌}
use distributed_caching.Config.{GatewayConfig}
use distributed_caching.Fetch.{Env, Fetched, fetch_from_backend}
use distributed_caching.L2.{get_l2, set_l2}
use distributed_caching.Lock.{
  is_success, distributed_lock_key, try_acquire_distributed_lock, fetch_as_owner,
  fetch_as_distributed_lock_owner, wait_for_lock, lock_round, fetch_with_distributed_lock, failed,
  lock_safety_margin,
}
use distributed_caching.Outside.{Io, Reply, ok, err, ◌>>=◌, ◌>>◌, pure}
use distributed_caching.Outside.Ensuring.{
  Ensures, option-post, if-Ensures, option-Ensures, reply-Ensures,
}
use distributed_caching.Outside.Keeping.{Keeping, reply-Keeping}
use distributed_caching.Provenance.{IsSound, Quiet, Documented, OwnKeys, FromFetched, FromRound}
use distributed_caching.Provenance.Fetches.{
  failed_503, failed_504, own-Keeping, fetch_from_backend-Ensures, release_distributed_lock-Keeping,
}
use distributed_caching.Provenance.First.{some_injective}
use distributed_caching.Provenance.Second.{Quiet-Keeping, get_l2-Ensures, set_l2-Keeping}
use distributed_caching.Time.{Duration, add, of_units, millisecond}

module _ {W Float : Type 0} (env : Env W Float) (value : W → String → Option String)
    (is_key : String → Bool) (laws : Documented env value is_key) (own : OwnKeys env is_key)
    (key : String) (cached : is_key key ≡ true) where
  open env use {floats, clock, redis, codec, backend}

  abbrev SoundHere : W → Type 0
  SoundHere = IsSound env value is_key

  abbrev From : String → Fetched → Type 0
  From = FromFetched env

  quiet : {A : Type 0} (m : Io W A) → Quiet env value is_key m → Keeping SoundHere m
  quiet m q = Quiet-Keeping env value is_key laws m q

  fetch_as_owner-Ensures :
      (ttl_l2 : Duration) (config : GatewayConfig Float)
      → Ensures SoundHere (fetch_as_owner env key ttl_l2 config) (From key)
  unfolding fetch_as_owner
  fetch_as_owner-Ensures ttl_l2 config w h =
      let (h1, from) = get_l2-Ensures env value is_key laws key cached w h in
      option-Ensures SoundHere (From key) (get_l2 floats clock redis codec key w).0 _ _
        (λ missed s g. fetched s g) (λ v hit s g. (g, λ good. (refl, from v hit)))
        (get_l2 floats clock redis codec key w).1 h1
    where
      fetched :
          Ensures SoundHere
            (do
              fetched ← fetch_from_backend env key config.backend_timeout_ms
              elim fetched.err [
                | some _ ↦ pure fetched
                | none ↦
                    if is_success fetched.status_code
                    then (do
                      now ← clock.now
                      let stored = record fetched.value { l2_expiration = add now ttl_l2 }
                      set_l2 floats clock redis codec key stored ttl_l2 config.l2_max_entries
                      pure (record fetched { value = stored }))
                    else pure fetched
              ])
            (From key)
      fetched s g =
          let (f, s1) = fetch_from_backend env key config.backend_timeout_ms s in
          let (g1, from) =
            fetch_from_backend-Ensures env value is_key laws own key config.backend_timeout_ms s
              g in
          option-Ensures SoundHere (From key) f.err _ _
            (λ fine.
              if-Ensures SoundHere (From key) (is_success f.status_code) _ _
                (λ good t i. (
                  set_l2-Keeping env value is_key laws key _ ttl_l2 config.l2_max_entries
                      (from good).1 (clock.now t).1 (quiet clock.now laws.now t i),
                  λ good. (fine, (from good).1),
                ))
                (λ bad t i. (i, from)))
            (λ e wrong t i. (i, from)) s1 g1

  fetch_as_distributed_lock_owner-Ensures :
      (lock token : String) (ttl_l2 : Duration) (config : GatewayConfig Float)
      → Ensures SoundHere
          (fetch_as_distributed_lock_owner env key lock token ttl_l2 config)
          (From key)
  unfolding fetch_as_distributed_lock_owner
  fetch_as_distributed_lock_owner-Ensures lock token ttl_l2 config w h =
      let (h1, from) = fetch_as_owner-Ensures ttl_l2 config w h in
      (release_distributed_lock-Keeping env value is_key laws own lock token _ h1, from)

  refused :
      (code : ℕ) (e : String)
      → is_success (pos code) ≡ false
      → FromRound env key (some (failed code e))
  refused code e bad f same good =
      let status = ap (λ g. is_success g.status_code) (some_injective same) in
      absurd (cc (bad, good, status))

  wait_for_lock-Ensures :
      (lock : String) → Ensures SoundHere (wait_for_lock env key lock) (FromRound env key)
  unfolding wait_for_lock
  wait_for_lock-Ensures lock w h =
      let (h1, from) = get_l2-Ensures env value is_key laws key cached w h in
      option-Ensures SoundHere (FromRound env key) (get_l2 floats clock redis codec key w).0 _ _
        (λ missed s g.
          reply-Ensures SoundHere (FromRound env key) (redis.key_exists lock s).0 _ _
            (λ e t i. (i, refused 503 e failed_503))
            (λ n got.
              if-Ensures SoundHere (FromRound env key) (leb_ℤ n (pos 0) && leb_ℤ (pos 0) n) _ _
                (λ free t i. (i, λ f none_is. cc))
                (λ held t i.
                  option-Ensures SoundHere (FromRound env key) (backend.poll _ t).0 _ _
                    (λ over u j. (j, λ f none_is. cc))
                    (λ e ended u j. (j, refused 504 e failed_504)) (backend.poll _ t).1
                    (quiet (backend.poll _) (laws.poll _) t i)))
            (redis.key_exists lock s).1 (quiet (redis.key_exists lock) (laws.key_exists lock) s g))
        (λ v hit s g.
          (g, λ f same. subst (From key) (some_injective same) (λ good. (refl, from v hit))))
        (get_l2 floats clock redis codec key w).1 h1

  try_acquire_distributed_lock-Keeping :
      (ttl : Duration)
      → Keeping SoundHere (try_acquire_distributed_lock env (distributed_lock_key env key) ttl)
  unfolding try_acquire_distributed_lock
  try_acquire_distributed_lock-Keeping ttl w h =
      reply-Keeping SoundHere (backend.token w).0 _ _ (λ e s g. g)
        (λ token s g.
          let lock = distributed_lock_key env key in
          reply-Keeping SoundHere (redis.set_nx lock token ttl s).0 _ _ (λ e t i. i)
            (λ acquired t i. i) (redis.set_nx lock token ttl s).1
            (own-Keeping env value is_key laws own lock token (redis.set_nx lock token ttl)
              (laws.set_nx lock token ttl) (own.lock key) s g))
        (backend.token w).1 (quiet backend.token laws.token w h)

  round_with :
      (ttl_l2 : Duration) (config : GatewayConfig Float) (r : Reply (String × Bool))
      → Ensures SoundHere
          (elim r [
            | err e ↦ pure (some (failed 503 e))
            | ok (token, true) ↦ do
              fetched ←
                  fetch_as_distributed_lock_owner env key
                    (distributed_lock_key env key)
                    token
                    ttl_l2
                    config
              pure (some fetched)
            | ok (token, false) ↦ wait_for_lock env key (distributed_lock_key env key)
          ])
          (FromRound env key)
  round_with ttl_l2 config (err e) w h = (h, refused 503 e failed_503)
  round_with ttl_l2 config (ok (token, false)) w h =
      wait_for_lock-Ensures (distributed_lock_key env key) w h
  round_with ttl_l2 config (ok (token, true)) w h =
      let (h1, from) =
        fetch_as_distributed_lock_owner-Ensures (distributed_lock_key env key) token ttl_l2 config w
          h in
      (h1, λ f same. subst (From key) (some_injective same) from)

  lock_round-Ensures :
      (ttl_l2 : Duration) (config : GatewayConfig Float)
      → Ensures SoundHere (lock_round env key ttl_l2 config) (FromRound env key)
  unfolding lock_round
  lock_round-Ensures ttl_l2 config w h =
      let ttl = wrap64 (of_units config.backend_timeout_ms millisecond +ℤ lock_safety_margin) in
      let (r, w1) = try_acquire_distributed_lock env (distributed_lock_key env key) ttl w in
      round_with ttl_l2 config r w1 (try_acquire_distributed_lock-Keeping ttl w h)

  pub fetch_with_distributed_lock-Ensures :
      (rounds : ℕ) (ttl_l2 : Duration) (config : GatewayConfig Float)
      → Ensures SoundHere
          (fetch_with_distributed_lock env rounds key ttl_l2 config)
          (FromRound env key)
  unfolding fetch_with_distributed_lock
  fetch_with_distributed_lock-Ensures zero ttl_l2 config w h = (h, λ f none_is. cc)
  fetch_with_distributed_lock-Ensures (suc rounds) ttl_l2 config w h =
      let (r, w1) = lock_round env key ttl_l2 config w in
      let (h1, from) = lock_round-Ensures ttl_l2 config w h in
      option-post SoundHere (FromRound env key) r
        (fetch_with_distributed_lock env rounds key ttl_l2 config w1) (λ f. (some f, w1))
        (λ again. fetch_with_distributed_lock-Ensures rounds ttl_l2 config w1 h1)
        (λ f answered. (h1, λ g same. from g (answered ∙ same)))
