-- ===== src/Wiring/Counts.antt =====
-- What the counters of gateway/middleware.go say of the requests that the router of gateway/main.go
-- got.
use Prim.Native.String.{◌++◌}
use text.Mathlib.Text.{starts_with}
use text.Mathlib.TextPositions.{starts_with-append}
use text.Mathlib.TextLemmas.{append_assoc}
use text.Mathlib.TextEquality.{starts_with_iff}
use distributed_caching.Base.{
  ℕ, ◌+◌, ◌≡◌, refl, sym, ◌∙◌, ap, Bool, true, false, ◌&&◌, String, List, [], ◌∷◌, ◌==◌,
  string_keys, if◌then◌else◌, arith, Bool-cases, inl, inr,
}
use distributed_caching.Base.Int.{pos, leb_ℤ}
use distributed_caching.Middleware.{
  WriterCall, Writer, Counted, is_user_request, metrics_middleware, gateway_instance_middleware,
}
use distributed_caching.Middleware.Statuses.{status_sent, metrics_middleware-counts}
use distributed_caching.Wiring.{
  Mux, Routed, found, not_found, method_not_allowed, GatewayTarget, gateway_routes, Call,
  run_routed, run_gateway,
}
use distributed_caching.Wiring.Routes.{gateway_routes-backend, starts-ne}

-- A user request has the prefix of the backend.
is_user_request-starts :
    (path : String) → is_user_request path ≡ true → starts_with path "/api/backend" ≡ true
unfolding is_user_request
is_user_request-starts path h =
    let (rest, split) = (starts_with_iff path "/api/backend/").0 h in
    ap (λ p. starts_with p "/api/backend") (sym split ∙ append_assoc "/api/backend" "/" rest)
    ∙ starts_with-append "/api/backend" ("/" ++ rest)

-- The number of requests that satisfy a test.
abbrev pub count_calls : (Call → Bool) → List Call → ℕ
count_calls test [] = 0
count_calls test (c ∷ calls) = (if test c then 1 else 0) + count_calls test calls

abbrev pub has_failed : Call → Bool
has_failed c = leb_ℤ (pos 500) (status_sent c.calls)

module _ {W : Type 0} (mux : Mux GatewayTarget) (writer : Writer W)
    (missing : Routed GatewayTarget → List WriterCall) (name : String) where
  abbrev pub run_all : List Call → Counted W → Counted W
  run_all [] s = s
  run_all (c ∷ calls) s = run_all calls (run_gateway mux writer missing name c s)

  -- A request that is not a user request changes no counter.
  run_routed-others :
      (r : Routed GatewayTarget) (c : Call) (s : Counted W)
      → is_user_request c.path ≡ false
      → ((run_routed mux writer missing name r c s).total_user_requests ≡ s.total_user_requests)
        × ((run_routed mux writer missing name r c s).total_failed_requests
            ≡ s.total_failed_requests)
  unfolding run_routed metrics_middleware
  run_routed-others not_found c s h = (refl, refl)
  run_routed-others method_not_allowed c s h = (refl, refl)
  run_routed-others (found t) c s h = elim (Bool-cases (c.path == "/metrics")) [
    | inl metrics ↦ rw (metrics, metrics_middleware) (refl, refl)
    | inr other ↦ rw (metrics_middleware-counts writer c.path _ s other, h) (refl, refl)
  ]

  run_gateway-counts :
      (c : Call) (s : Counted W)
      → ((run_gateway mux writer missing name c s).total_user_requests
          ≡ (if is_user_request c.path then 1 else 0) + s.total_user_requests)
        × ((run_gateway mux writer missing name c s).total_failed_requests
            ≡ (if is_user_request c.path && has_failed c then 1 else 0) + s.total_failed_requests)
  unfolding run_gateway run_routed gateway_instance_middleware
  run_gateway-counts c s = elim (Bool-cases (is_user_request c.path)) [
    | inr other ↦
        let (user, failed) =
          run_routed-others (mux.route gateway_routes c.method c.path) c s other in
        rw other (user ∙ omega arith, failed ∙ omega arith)
    | inl user ↦
        let starts = is_user_request-starts c.path user in
        let not_metrics = (starts-ne c.path "/metrics" "/api/backend" starts refl).1 in
        rw (gateway_routes-backend mux c.method c.path starts, run_gateway, user)
          (rw (metrics_middleware-counts writer c.path _ s not_metrics, user) (ground arith))
  ]

  -- With a router that obeys its documented laws, after any list of requests to the gateway the
  -- counter of user requests has grown by the number of requests whose path starts with
  -- /api/backend/, and that of failed ones by the number of those whose status is at least 500; no
  -- other request counts.
  pub run_all-counts :
      (calls : List Call) (s : Counted W)
      → ((run_all calls s).total_user_requests
          ≡ count_calls (λ c. is_user_request c.path) calls + s.total_user_requests)
        × ((run_all calls s).total_failed_requests
            ≡ count_calls (λ c. is_user_request c.path && has_failed c) calls
              + s.total_failed_requests)
  run_all-counts [] s = (omega arith, omega arith)
  run_all-counts (c ∷ calls) s =
      let (user, failed) = run_gateway-counts c s in
      let (users, failures) = run_all-counts calls (run_gateway mux writer missing name c s) in
      (omega (arith, user, users), omega (arith, failed, failures))
