-- ===== src/Wiring.antt =====
-- gateway/main.go and backend/main.go: which handler gets a request. The router of gorilla/mux is a
-- parameter with its documented laws; it is asked for paths that are clean, as it redirects others.
pub mod Routes
pub mod Counts
use Prim.Native.String.{◌++◌}
use text.Mathlib.Text.{starts_with}
use distributed_caching.Base.{
  ◌≡◌, Bool, true, false, String, List, [], ◌∷◌, map, Option, none, some, ◌==◌, string_keys,
  if◌then◌else◌,
}
use distributed_caching.Base.Int.{pos}
use distributed_caching.Middleware.{
  WriterCall, Writer, run_writer, Counted, metrics_middleware, gateway_instance_middleware,
}

-- The path of a route: `Handle`, `PathPrefix`, and a path that ends in a variable.
pub data Pattern : Type 0 where
  exact prefixed variable : String → Pattern

-- The method is that of `Methods`; a route without one takes any.
pub record Route (Target : Type 0) : Type 0 where
  pub pattern : Pattern
  pub method : Option String
  pub target : Target

pub data Routed (Target : Type 0) : Type 0 where
  found : Target → Routed Target
  not_found : Routed Target
  method_not_allowed : Routed Target

abbrev pub allows : Option String → String → Bool
allows none method = true
allows (some m) method = m == method

-- A route that has the path but not the method is remembered.
abbrev pub unless_found : {Target : Type 0} → Routed Target → Routed Target
unless_found (found t) = found t
unless_found _ = method_not_allowed

-- The routes are tried in order. A variable stands for one part of a path, which is not empty.
pub record Mux (Target : Type 0) : Type 0 where
  pub route : List (Route Target) → String → String → Routed Target
  pub has_path : Pattern → String → Bool
  pub is_part : String → Bool
  pub exact_path : (p path : String) → has_path (exact p) path ≡ (p == path)
  pub prefix_path : (p path : String) → has_path (prefixed p) path ≡ starts_with path p
  pub variable_path :
      (p part : String) → is_part part ≡ true → has_path (variable p) (p ++ part) ≡ true
  pub route_nil : (method path : String) → route [] method path ≡ not_found
  pub route_cons :
      (r : Route Target) (rest : List (Route Target)) (method path : String)
      → route (r ∷ rest) method path ≡ (
          if has_path r.pattern path
          then if allows r.method method
            then found r.target
            else unless_found (route rest method path)
          else route rest method path)

-- `PathPrefix(…).Subrouter()`: the routes have the prefix in front.
abbrev under : String → Pattern → Pattern
under p (exact q) = exact (p ++ q)
under p (prefixed q) = prefixed (p ++ q)
under p (variable q) = variable (p ++ q)

abbrev subrouter : {Target : Type 0} → String → List (Route Target) → List (Route Target)
subrouter {Target} p routes =
    map {A = Route Target} (λ r. record r { pattern = under p r.pattern }) routes

pub data GatewayTarget : Type 0 where
  gateway_metrics serve_backend get_cache_config update_cache_config : GatewayTarget

-- The routes of gateway/main.go.
abbrev pub api_routes : List (Route GatewayTarget)
api_routes =
    record { pattern = prefixed "/backend"; method = none; target = serve_backend }
    ∷ record { pattern = exact "/cache-config"; method = some "GET"; target = get_cache_config }
    ∷ record { pattern = exact "/cache-config"; method = some "PUT"; target = update_cache_config }
    ∷ []

abbrev pub gateway_routes : List (Route GatewayTarget)
gateway_routes =
    record { pattern = exact "/metrics"; method = none; target = gateway_metrics }
    ∷ subrouter "/api" api_routes

pub data BackendTarget : Type 0 where
  get_load_signals backend_metrics get_config update_config activate_fault get : BackendTarget

-- The routes of backend/main.go.
abbrev pub backend_routes : List (Route BackendTarget)
backend_routes =
    record { pattern = exact "/load"; method = some "GET"; target = get_load_signals }
    ∷ record { pattern = exact "/metrics"; method = none; target = backend_metrics }
    ∷ record { pattern = exact "/config"; method = some "GET"; target = get_config }
    ∷ record { pattern = exact "/config"; method = some "PUT"; target = update_config }
    ∷ record { pattern = exact "/fault"; method = some "POST"; target = activate_fault }
    ∷ record { pattern = variable "/"; method = some "GET"; target = get }
    ∷ []

-- `INSTANCE_NAME`, or its default.
unfoldable pub instance_name : String → String
instance_name env = if env == "" then "gateway" else env

-- A request, with the calls of its handler on the writer.
pub record Call : Type 0 where
  pub method : String
  pub path : String
  pub calls : List WriterCall

-- The router of gateway/main.go with its two middlewares, which run for a route that was found; what
-- it answers else is a parameter. The middleware of rs/cors around it is left out.
module _ {W : Type 0} (mux : Mux GatewayTarget) (writer : Writer W)
    (missing : Routed GatewayTarget → List WriterCall) (name : String) where
  unfoldable pub run_routed : Routed GatewayTarget → Call → Counted W → Counted W
  run_routed (found t) c s =
      metrics_middleware writer c.path (gateway_instance_middleware name c.calls) s
  run_routed other c s = record s { world = run_writer writer (missing other) s.world }

  unfoldable pub run_gateway : Call → Counted W → Counted W
  run_gateway c s = run_routed (mux.route gateway_routes c.method c.path) c s
