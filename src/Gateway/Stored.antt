-- ===== src/Gateway/Stored.antt =====
-- What gateway/handler.go puts into the first level, and what it answers from it.
use distributed_caching.Base.{
  ℕ, Bool, true, false, String, none, some, ◌≡◌, refl, Bool-cases, Option-cases, inl, inr, arith,
  ap, sym,
}
use distributed_caching.Base.Int.{pos, ◌<ℤ◌}
use distributed_caching.Cache.{KeyValue}
use distributed_caching.Config.{GatewayConfig}
use distributed_caching.Fetch.{Env, Fetched}
use distributed_caching.Gateway.{
  Server, store_l1, store_answer, answer_fetched, answer_result, fetch, handle_backend_normally,
}
use distributed_caching.L1.{get_l1, is_expired}
use distributed_caching.L1.Linked.{IsLinked}
use distributed_caching.L1.Reads.{get_l1-set_l1_self}
use distributed_caching.Lock.{is_success}
use distributed_caching.Time.{Time, Duration}

-- The fetch gave an answer that may be stored.
abbrev pub is_good : Fetched → Bool
is_good f = elim f.err [ none ↦ is_success f.status_code | some _ ↦ false ]

module _ {W Float : Type 0} (env : Env W Float) (key : String) (ttl_l1 ttl_l2 : Duration)
    (config : GatewayConfig Float) where
  -- Stored, dated and read back.
  abbrev ReadBack : KeyValue → Time → KeyValue × Server W Float → Type 0
  ReadBack v now (dated, t) =
      is_expired now dated ≡ false
      → ((get_l1 now key t.l1).0 ≡ some dated) × (dated.value ≡ v.value)

  store_l1-get :
      (v : KeyValue) (s : Server W Float) (now : Time)
      → IsLinked s.l1
      → pos 0 <ℤ config.l1_max_entries
      → ReadBack v now (store_l1 env key v ttl_l1 config s)
  unfolding store_l1
  store_l1-get v s now inv on fresh =
      (get_l1-set_l1_self s.l1 inv now key _ config.l1_max_entries on fresh, refl)

  store_answer-get :
      (v : KeyValue) (s : Server W Float) (now : Time)
      → IsLinked s.l1
      → pos 0 <ℤ config.l1_max_entries
      → ReadBack v now (store_answer env key v ttl_l1 ttl_l2 config s)
  unfolding store_answer
  store_answer-get v s now inv on = elim (Bool-cases config.distributed_lock_enabled) [
    | inl locked ↦ simp (locked, store_answer) (store_l1-get v s now inv on)
    | inr unlocked ↦ simp (unlocked, store_answer) (store_l1-get _ _ now inv on)
  ]

  answer_fetched-good :
      (f : Fetched) (s : Server W Float)
      → is_good f ≡ true
      → answer_fetched env key f ttl_l1 ttl_l2 config s ≡ (
        record { status = f.status_code; body = f.value.value },
        (store_answer env key f.value ttl_l1 ttl_l2 config s).1,
      )
  unfolding answer_fetched
  answer_fetched-good f s good = elim (Option-cases f.err) [
    | inr (e, failed) ↦ absurd (ground arith)
    | inl fine ↦
        let stored : is_success f.status_code ≡ true = ground arith in
        simp (fine, stored, answer_fetched) refl
  ]

  module _ (rounds : ℕ) (s : Server W Float) (f : Fetched)
      (answered : (fetch env rounds key ttl_l2 config s.world).0 ≡ some f) where
    abbrev pub fetched_state : Server W Float
    fetched_state = record s { world = (fetch env rounds key ttl_l2 config s.world).1 }

    handle_backend_normally-answers :
        handle_backend_normally env rounds key ttl_l1 ttl_l2 config s ≡ (
          some (answer_fetched env key f ttl_l1 ttl_l2 config fetched_state).0,
          (answer_fetched env key f ttl_l1 ttl_l2 config fetched_state).1,
        )
    unfolding handle_backend_normally answer_result
    handle_backend_normally-answers =
        ap (λ o. answer_result env key ttl_l1 ttl_l2 config o fetched_state) answered

    -- If the fetch answers without error and with a status from 200 to 299, the first level is
    -- linked and its limit is above zero, then after handleBackendNormally a read of the key finds
    -- a value with the body that was answered, unless the stored value has expired at the time of
    -- the read.
    pub handle_backend_normally-good :
        (now : Time)
        → IsLinked s.l1
        → pos 0 <ℤ config.l1_max_entries
        → is_good f ≡ true
        → is_expired now (store_answer env key f.value ttl_l1 ttl_l2 config fetched_state).0 ≡ false
        → (v : KeyValue) × ((get_l1 now key
              (handle_backend_normally env rounds key ttl_l1 ttl_l2 config s).1.l1).0
            ≡ some v)
          × ((handle_backend_normally env rounds key ttl_l1 ttl_l2 config s).0
              ≡ some (record { status = f.status_code; body = v.value }))
    handle_backend_normally-good now inv on good fresh =
        let (here, same) = store_answer-get f.value fetched_state now inv on fresh in
        rw (handle_backend_normally-answers, answer_fetched-good f fetched_state good)
          (_, here, ap (λ b. some (record { status = f.status_code; body = b })) (sym same))
