-- ===== src/Provenance/Fetches.antt =====
-- The fetches of gateway/backend_fetcher.go, and the end of a hold of gateway/distributed_lock.go.
use distributed_caching.Base.{
  ◌≡◌, refl, Bool, false, String, Option, none, some, inl, inr, if◌then◌else◌, Bool-cases, ◌==◌,
  string_keys, subst, sym,
}
use distributed_caching.Base.Int.{ℤ, pos}
use distributed_caching.Cache.{KeyValue}
use distributed_caching.Fetch.{
  Env, Fetched, faf_refresh_marker_key, record_backend_call_for_faf, classify_recorded, Proxied,
  responded, failed_with, recorded_of, error_handler, fetch_from_backend,
}
use distributed_caching.Lock.{is_success, release_distributed_lock, release_distributed_lock_script}
use distributed_caching.Outside.{Io, pure}
use distributed_caching.Outside.Ensuring.{Ensures, option-Ensures}
use distributed_caching.Outside.Keeping.{Keeping}
use distributed_caching.Provenance.{
  IsFrom, IsSound, Quiet, Writes, Documented, OwnKeys, FromFetched,
}
use distributed_caching.Provenance.Second.{Quiet-Keeping, Writes-Keeping}
use distributed_caching.Time.{Duration, of_units, millisecond}

pub failed_504 : is_success (pos 504) ≡ false
unfolding is_success
failed_504 = refl

pub failed_502 : is_success (pos 502) ≡ false
unfolding is_success
failed_502 = refl

pub failed_503 : is_success (pos 503) ≡ false
unfolding is_success
failed_503 = refl

module _ {W Float : Type 0} (env : Env W Float) (value : W → String → Option String)
    (is_key : String → Bool) (laws : Documented env value is_key) (own : OwnKeys env is_key) where
  open env use {floats, clock, redis, codec, backend}

  abbrev SoundHere : W → Type 0
  SoundHere = IsSound env value is_key

  abbrev From : String → Fetched → Type 0
  From key = FromFetched env key

  quiet : {A : Type 0} (m : Io W A) → Quiet env value is_key m → Keeping SoundHere m
  quiet m q = Quiet-Keeping env value is_key laws m q

  -- A text under a key of the gateways.
  pub own-Keeping :
      {A : Type 0} (k t : String) (m : Io W A)
      → Writes env value is_key k t m
      → is_key k ≡ false
      → Keeping SoundHere m
  own-Keeping k t m writes other =
      Writes-Keeping env value is_key laws k t m writes (λ v is_one. absurd (cc (other, is_one)))

  record_backend_call_for_faf-Keeping :
      (key : String) (timeout : Duration)
      → Keeping SoundHere (record_backend_call_for_faf env key timeout)
  unfolding record_backend_call_for_faf
  record_backend_call_for_faf-Keeping key timeout w h =
      own-Keeping (faf_refresh_marker_key env key) "1" (redis.set_nx _ _ _) (laws.set_nx _ _ _)
        (own.marker key) w h

  -- A response or an error of the proxy, after the call.
  classify_recorded-Ensures :
      (key : String) (timeout : Duration) (w : W) (result : KeyValue) (p : Proxied)
      → (backend.serve key timeout w).0 ≡ p
      → result.value ≡ (recorded_of p).body
      → Ensures SoundHere (classify_recorded env result (recorded_of p)) (From key)
  unfolding classify_recorded recorded_of error_handler
  classify_recorded-Ensures key timeout w result (failed_with e) same bytes s g =
      (g, λ good. absurd (cc (failed_502, good)))
  classify_recorded-Ensures key timeout w result (responded body code) same bytes s g =
      option-Ensures SoundHere (From key) (backend.context_err s).0 _ _
        (λ lasts t i. (
          i,
          λ good. (
            refl,
            subst (IsFrom env key) (sym bytes) (record {
              moment = w;
              timeout = timeout;
              code = code;
              answered = same;
              good = good;
            }),
          ),
        ))
        (λ e ended t i. (i, λ good. absurd (cc (failed_504, good)))) (backend.context_err s).1
        (quiet backend.context_err laws.context_err s g)

  pub fetch_from_backend-Ensures :
      (key : String) (timeout_ms : ℤ)
      → Ensures SoundHere (fetch_from_backend env key timeout_ms) (From key)
  unfolding fetch_from_backend
  fetch_from_backend-Ensures key timeout_ms w h =
      let timeout = of_units timeout_ms millisecond in
      let w1 = (clock.now w).1 in
      let w2 = (record_backend_call_for_faf env key timeout w1).1 in
      let (p, w3) = backend.serve key timeout w2 in
      let h1 = quiet clock.now laws.now w h in
      let h2 = record_backend_call_for_faf-Keeping key timeout w1 h1 in
      let h3 = quiet (backend.serve key timeout) (laws.serve key timeout) w2 h2 in
      let h4 = quiet clock.now laws.now w3 h3 in
      classify_recorded-Ensures key timeout w2 _ p refl refl (clock.now w3).1 h4

  pub release_distributed_lock-Keeping :
      (lock token : String) → Keeping SoundHere (release_distributed_lock env lock token)
  unfolding release_distributed_lock release_distributed_lock_script
  release_distributed_lock-Keeping lock token w h =
      quiet (redis.run_script (release_distributed_lock_script env lock token))
        (laws.script _ deletes) w h
    where
      deletes : Quiet env value is_key (release_distributed_lock_script env lock token)
      deletes w k t stored =
          laws.call_get lock w k t
            (after (redis.call_get lock w).0 (redis.call_get lock w).1 k t stored)
        where
          after :
              (o : Option String)
              → Quiet env value is_key (elim o [
                | none ↦ pure (pos 0)
                | some s ↦ if s == token then redis.call_del lock else pure (pos 0)
              ])
          after none w k t stored = stored
          after (some s) w k t stored = elim (Bool-cases (s == token)) [
            | inl mine ↦ laws.call_del lock w k t (rw mine at stored)
            | inr other ↦ rw other at stored
          ]
