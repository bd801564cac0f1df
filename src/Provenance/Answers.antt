-- ===== src/Provenance/Answers.antt =====
-- What a gateway answers that neither level answers, in gateway/handler.go and gateway/singleflight.go.
use distributed_caching.Base.{
  ℕ, ◌≡◌, refl, subst, Bool, true, String, Option, none, some, inl, inr, Option-cases, string_keys,
}
use distributed_caching.Cache.{KeyValue}
use distributed_caching.Config.{GatewayConfig}
use distributed_caching.Fetch.{Env, Fetched}
use distributed_caching.Gateway.{
  Server, store_l1, store_answer, answer_fetched, fetch, outcome, answer_result,
  handle_backend_normally, answer_leader, finish_call, lead_call, handle_backend_single_flight,
}
use distributed_caching.L1.Linked.{IsLinked, view}
use distributed_caching.Lock.{is_success}
use distributed_caching.Outside.Ensuring.{Ensures, if-post, if-Ensures, option-Ensures}
use distributed_caching.Outside.Keeping.{Keeping, option-kept}
use distributed_caching.Provenance.{
  IsFrom, IsSound, Documented, OwnKeys, FromFetched, FromRound, FromResponse, FromAnswer,
}
use distributed_caching.Provenance.Fetches.{failed_502, fetch_from_backend-Ensures}
use distributed_caching.Provenance.Locked.{fetch_with_distributed_lock-Ensures}
use distributed_caching.Provenance.First.{some_injective, AllFrom, set_l1-AllFrom}
use distributed_caching.Provenance.Second.{Quiet-Keeping, set_l2-Keeping}
use distributed_caching.SingleFlight.{
  Outcome, leader_response, get_or_create_in_flight, finish_in_flight,
}
use distributed_caching.Time.{Duration}

module _ {W Float : Type 0} (env : Env W Float) (value : W → String → Option String)
    (is_key : String → Bool) where
  open env use {floats, clock, redis, codec, backend}

  -- Both levels of a gateway hold what is from the backend.
  pub record HoldsFrom (s : Server W Float) : Type 0 where
    pub linked : IsLinked s.l1
    pub first : AllFrom (IsFrom env) (view s.l1.order)
    pub second : IsSound env value is_key s.world

  module _ (laws : Documented env value is_key) (own : OwnKeys env is_key) where
    abbrev SoundHere : W → Type 0
    SoundHere = IsSound env value is_key

    pub in_world-HoldsFrom :
        (w : W) (s : Server W Float)
        → HoldsFrom s
        → SoundHere w
        → HoldsFrom (record s { world = w })
    in_world-HoldsFrom w s h sound = record { linked = h.linked; first = h.first; second = sound }

    pub store_l1-Ensures :
        (key : String) (v : KeyValue) (ttl : Duration) (config : GatewayConfig Float)
        → IsFrom env key v.value
        → Ensures HoldsFrom (store_l1 env key v ttl config) (λ (u : KeyValue). u.value ≡ v.value)
    unfolding store_l1
    store_l1-Ensures key v ttl config from s h =
        let (linked, first) =
          set_l1-AllFrom (IsFrom env) key _ config.l1_max_entries s.l1 from h.linked h.first in
        (
          record {
            linked = linked;
            first = first;
            second = Quiet-Keeping env value is_key laws clock.now laws.now s.world h.second;
          },
          refl,
        )

    module _ (key : String) (cached : is_key key ≡ true) (ttl_l1 ttl_l2 : Duration)
        (config : GatewayConfig Float) where
      store_answer-Ensures :
          (v : KeyValue)
          → IsFrom env key v.value
          → Ensures HoldsFrom
              (store_answer env key v ttl_l1 ttl_l2 config)
              (λ (u : KeyValue). u.value ≡ v.value)
      unfolding store_answer
      store_answer-Ensures v from =
          if-Ensures HoldsFrom (λ (u : KeyValue). u.value ≡ v.value) config.distributed_lock_enabled
            _ _ (λ locked. store_l1-Ensures key v ttl_l1 config from)
            (λ alone s h.
              let (now, w) = clock.now s.world in
              let sound = Quiet-Keeping env value is_key laws clock.now laws.now s.world h.second in
              let stored =
                set_l2-Keeping env value is_key laws key _ ttl_l2 config.l2_max_entries from w
                  sound in
              store_l1-Ensures key _ ttl_l1 config from _ (in_world-HoldsFrom _ s h stored))

      answer_fetched-Ensures :
          (f : Fetched)
          → FromFetched env key f
          → Ensures HoldsFrom (answer_fetched env key f ttl_l1 ttl_l2 config) (FromResponse env key)
      unfolding answer_fetched
      answer_fetched-Ensures f from =
          option-Ensures HoldsFrom (FromResponse env key) f.err _ _
            (λ fine.
              if-Ensures HoldsFrom (FromResponse env key) (is_success f.status_code) _ _
                (λ good s h.
                  let (kept, same) = store_answer-Ensures f.value (from good).1 s h in
                  (kept, λ good. (from good).1))
                (λ bad s h. (h, λ good. absurd (cc (bad, good)))))
            (λ e wrong s h. (h, λ good. absurd (cc (wrong, (from good).0))))

      fetch-Ensures :
          (rounds : ℕ) → Ensures SoundHere (fetch env rounds key ttl_l2 config) (FromRound env key)
      unfolding fetch
      fetch-Ensures rounds =
          if-Ensures SoundHere (FromRound env key) config.distributed_lock_enabled _ _
            (λ locked.
              fetch_with_distributed_lock-Ensures env value is_key laws own key cached rounds ttl_l2
                config)
            (λ alone w h.
              let (sound, from) =
                fetch_from_backend-Ensures env value is_key laws own key config.backend_timeout_ms w
                  h in
              (sound, λ f same. subst (FromFetched env key) (some_injective same) from))

      answer_result-Ensures :
          (o : Option Fetched)
          → FromRound env key o
          → Ensures HoldsFrom (answer_result env key ttl_l1 ttl_l2 config o) (FromAnswer env key)
      unfolding answer_result
      answer_result-Ensures none from s h = (h, λ r none_is. cc)
      answer_result-Ensures (some f) from s h =
          let (kept, answer) = answer_fetched-Ensures f (from f refl) s h in
          (kept, λ r same. subst (FromResponse env key) (some_injective same) answer)

      pub handle_backend_normally-Ensures :
          (rounds : ℕ)
          → Ensures HoldsFrom
              (handle_backend_normally env rounds key ttl_l1 ttl_l2 config)
              (FromAnswer env key)
      unfolding handle_backend_normally
      handle_backend_normally-Ensures rounds s h =
          let (sound, from) = fetch-Ensures rounds s.world h.second in
          answer_result-Ensures _ from _ (in_world-HoldsFrom _ s h sound)

      finish_call-Keeping :
          (call : ℕ) (f : Fetched) → Keeping HoldsFrom (finish_call env key call f)
      unfolding finish_call
      finish_call-Keeping call f s h =
          option-kept HoldsFrom (finish_in_flight key call (outcome env f) s.flights) _ _ h
            (λ flights. record { linked = h.linked; first = h.first; second = h.second })

      leader_response-From :
          (o : Outcome)
          → (is_success o.status_code ≡ true → (o.err ≡ none) × IsFrom env key o.body)
          → FromResponse env key (leader_response o)
      unfolding leader_response
      leader_response-From o from = elim (Option-cases o.err) [
        | inl fine ↦ rw fine (λ good. (from good).1)
        | inr (e, wrong) ↦ rw wrong (λ good. absurd (cc (failed_502, good)))
      ]

      answer_leader-Ensures :
          (f : Fetched)
          → FromFetched env key f
          → Ensures HoldsFrom (answer_leader env key f ttl_l1 ttl_l2 config) (FromResponse env key)
      unfolding answer_leader
      answer_leader-Ensures f from s h =
          let (kept, answer) = answer_fetched-Ensures f from s h in
          (kept, leader_response-From (outcome env f) from)

      lead_call-Ensures :
          (rounds call : ℕ)
          → Ensures HoldsFrom
              (lead_call env rounds key call ttl_l1 ttl_l2 config)
              (FromAnswer env key)
      unfolding lead_call
      lead_call-Ensures rounds call s h =
          let (sound, from) = fetch-Ensures rounds s.world h.second in
          option-Ensures HoldsFrom (FromAnswer env key)
            (fetch env rounds key ttl_l2 config s.world).0 _ _ (λ over t i. (i, λ r none_is. cc))
            (λ f got t i.
              let (kept, answer) = answer_leader-Ensures f (from f got) t i in
              (
                finish_call-Keeping call f _ kept,
                λ r same. subst (FromResponse env key) (some_injective same) answer,
              ))
            (record s { world = (fetch env rounds key ttl_l2 config s.world).1 })
            (in_world-HoldsFrom _ s h sound)

      pub handle_backend_single_flight-Ensures :
          (rounds : ℕ)
          → Ensures HoldsFrom
              (handle_backend_single_flight env rounds key ttl_l1 ttl_l2 config)
              (FromAnswer env key)
      unfolding handle_backend_single_flight
      handle_backend_single_flight-Ensures rounds s h =
          let (call, is_leader, flights) = get_or_create_in_flight key s.flights in
          if-post HoldsFrom (FromAnswer env key) is_leader
            (lead_call env rounds key call ttl_l1 ttl_l2 config (record s { flights = flights }))
            (none, s)
            (λ leads.
              lead_call-Ensures rounds call _
                (record { linked = h.linked; first = h.first; second = h.second }))
            (λ waits. (h, λ r none_is. cc))
