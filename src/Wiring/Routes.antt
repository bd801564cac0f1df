-- ===== src/Wiring/Routes.antt =====
-- Where gateway/main.go and backend/main.go send a request.
use Prim.Native.String.{◌++◌}
use text.Mathlib.Text.{starts_with}
use text.Mathlib.TextPositions.{starts_with-append}
use distributed_caching.Base.{
  ◌≡◌, ◌≢◌, refl, sym, ◌∙◌, ap, true, false, String, ◌==◌, string_keys, if◌then◌else◌, eq_iff,
  arith, Bool-cases, inl, inr,
}
use distributed_caching.Gateway.Director.{
  Url, trim_prefix, director, trim_prefix-append, director-path,
}
use distributed_caching.Wiring.{
  Mux, found, method_not_allowed, GatewayTarget, serve_backend, get_cache_config,
  update_cache_config, gateway_routes, BackendTarget, get_load_signals, backend_metrics, get_config,
  get, backend_routes,
}

-- A path that starts with a text is none that does not.
pub starts-ne :
    (path p prefix : String)
    → starts_with path prefix ≡ true
    → starts_with p prefix ≡ false
    → ((p == path) ≡ false) × ((path == p) ≡ false)
starts-ne path p prefix h k = (apart p path (λ e. cc (h, k, e)), apart path p (λ e. cc (h, k, e)))
  where
    apart : (s t : String) → s ≢ t → (s == t) ≡ false
    apart s t other = ground (arith, eq_iff s t, other)

-- Behind a common prefix, texts are compared.
same-append : (p s t : String) → ((p ++ s) == (p ++ t)) ≡ (s == t)
same-append p s t = elim (Bool-cases (s == t)) [
  | inl same ↦ rw same ((eq_iff (p ++ s) (p ++ t)).1 (ap (λ u. p ++ u) ((eq_iff s t).0 same)))
  | inr other ↦ elim (Bool-cases ((p ++ s) == (p ++ t))) [
    | inr apart ↦ apart ∙ sym other
    | inl joined ↦
        let equal =
          sym (trim_prefix-append p s)
          ∙ ap (λ u. trim_prefix u p) ((eq_iff (p ++ s) (p ++ t)).0 joined)
          ∙ trim_prefix-append p t in
        joined ∙ sym ((eq_iff s t).1 equal)
  ]
]

module _ (mux : Mux GatewayTarget) where
  open mux use {route, exact_path, prefix_path, route_nil, route_cons}

  -- Every path behind the prefix goes to the handler, with any method.
  pub gateway_routes-backend :
      (method path : String)
      → starts_with path "/api/backend" ≡ true
      → route gateway_routes method path ≡ found serve_backend
  gateway_routes-backend method path h =
      let other = (starts-ne path "/metrics" "/api/backend" h refl).0 in
      rw (route_cons, exact_path, other) (rw (route_cons, prefix_path, h) refl)

  pub gateway_routes-config :
      (method : String)
      → route gateway_routes method "/api/cache-config" ≡ (
          if "GET" == method
          then found get_cache_config
          else if "PUT" == method
          then found update_cache_config
          else method_not_allowed)
  gateway_routes-config method =
      rw
        (
          route_cons, exact_path, route_cons, prefix_path, route_cons, exact_path, route_cons,
          exact_path, route_nil,
        )
        (elim (Bool-cases ("GET" == method)) [
          | inl read ↦ rw read refl
          | inr other ↦ elim (Bool-cases ("PUT" == method)) [
            | inl write ↦ rw (other, write) refl
            | inr neither ↦ rw (other, neither) refl
          ]
        ])

  -- A request for the backend gets there under the path behind the prefix.
  module _ (backend : Mux BackendTarget) where
    open backend use {is_part}

    pub backend_routes-get :
        (part : String)
        → is_part part ≡ true
        → backend.route backend_routes "GET" ("/" ++ part) ≡ (
            if "load" == part
            then found get_load_signals
            else if "metrics" == part
            then found backend_metrics
            else if "config" == part
            then found get_config
            else found get)
    backend_routes-get part h =
        let load : ("/load" == ("/" ++ part)) ≡ ("load" == part) = same-append "/" "load" part in
        let metrics : ("/metrics" == ("/" ++ part)) ≡ ("metrics" == part) =
          same-append "/" "metrics" part in
        let config : ("/config" == ("/" ++ part)) ≡ ("config" == part) =
          same-append "/" "config" part in
        let fault : ("/fault" == ("/" ++ part)) ≡ ("fault" == part) =
          same-append "/" "fault" part in
        rw
          (
            backend.route_cons,
            backend.exact_path,
            load,
            backend.route_cons,
            backend.exact_path,
            metrics,
            backend.route_cons,
            backend.exact_path,
            config,
            backend.route_cons,
            backend.exact_path,
            config,
            backend.route_cons,
            backend.exact_path,
            fault,
            backend.route_cons,
            backend.variable_path "/" part h,
          )
          (ground arith)

    -- With a router that obeys its documented laws on both sides, and a proxy whose own director
    -- keeps the path: a request with any method for the path /api/backend/ and a part goes to the
    -- handler of the gateway, and a GET for the path that the director makes of it goes to the
    -- load signals, the metrics or the configuration of the backend if the part is load, metrics
    -- or config, and else to its Get.
    pub backend_request-routed :
        (original_director : Url → Url) (url : Url) (method part : String)
        → (original_director url).path ≡ url.path
        → url.path ≡ "/api/backend" ++ ("/" ++ part)
        → is_part part ≡ true
        → (route gateway_routes method url.path ≡ found serve_backend)
          × (backend.route backend_routes "GET" (director original_director url).path ≡ (
              if "load" == part
              then found get_load_signals
              else if "metrics" == part
              then found backend_metrics
              else if "config" == part
              then found get_config
              else found get))
    backend_request-routed original_director url method part same path h =
        let starts =
          ap (λ p. starts_with p "/api/backend") path
          ∙ starts_with-append "/api/backend" ("/" ++ part) in
        (
          gateway_routes-backend method url.path starts,
          rw (director-path original_director url ("/" ++ part) (same ∙ path))
              (backend_routes-get part h),
        )
