-- ===== src/Tests/Routed.antt =====
-- Requests that the routers of the gateway and of the backend get.
use text.Mathlib.Text.{starts_with}
use text.Mathlib.TextPositions.{starts_with-append}
use distributed_caching.Base.{
  ℕ, ◌+◌, ◌≡◌, refl, Bool, ◌&&◌, not, String, List, [], ◌∷◌, ◌==◌, string_keys, if◌then◌else◌,
}
use distributed_caching.Base.Int.{pos}
use distributed_caching.Gateway.Director.{director, trim_prefix, trim_prefix-append}
use distributed_caching.Middleware.{write_header, Writer, Counted, is_user_request}
use distributed_caching.Wiring.{
  Pattern, exact, prefixed, variable, Route, Routed, found, not_found, allows, unless_found, Mux,
  serve_backend, gateway_routes, get, backend_routes, Call,
}
use distributed_caching.Wiring.Counts.{run_all, run_all-counts}
use distributed_caching.Wiring.Routes.{backend_request-routed}

abbrev has_path : Pattern → String → Bool
has_path (exact p) path = p == path
has_path (prefixed p) path = starts_with path p
has_path (variable p) path = starts_with path p && not (trim_prefix path p == "")

route : {Target : Type 0} → List (Route Target) → String → String → Routed Target
route [] method path = not_found
route (r ∷ rest) method path =
    let later = route rest method path in
    if has_path r.pattern path
    then if allows r.method method then found r.target else unless_found later
    else later

-- A router, for which a part of a path is any text that is not empty.
router : {Target : Type 0} → Mux Target
unfolding route
router = record {
  route = route;
  has_path = has_path;
  is_part = λ part. not (part == "");
  exact_path = λ p path. refl;
  prefix_path = λ p path. refl;
  variable_path = λ p part h. rw (starts_with-append, trim_prefix-append) h;
  route_nil = λ method path. refl;
  route_cons = λ r rest method path. refl;
}

backend_request-routed_example :
    (Mux.route router gateway_routes "GET" "/api/backend/7" ≡ found serve_backend)
    × (Mux.route router backend_routes "GET"
          (director (λ u. u) (record { path = "/api/backend/7"; raw_path = "" })).path
        ≡ found get)
unfolding route router
backend_request-routed_example =
    backend_request-routed router router (λ u. u)
      (record { path = "/api/backend/7"; raw_path = "" }) "GET" "7" refl refl refl

abbrev silent : Writer ℕ
silent call w = w + 1

abbrev calls : List Call
calls =
    record { method = "GET"; path = "/api/backend/7"; calls = write_header (pos 502) ∷ [] }
    ∷ record { method = "GET"; path = "/metrics"; calls = [] }
    ∷ []

abbrev counted : Counted ℕ
counted = record { total_user_requests = 4; total_failed_requests = 1; world = 0 }

run_all-counts_example :
    ((run_all router silent (λ r. []) "gateway" calls counted).total_user_requests ≡ 5)
    × ((run_all router silent (λ r. []) "gateway" calls counted).total_failed_requests ≡ 2)
unfolding is_user_request
run_all-counts_example = run_all-counts router silent (λ r. []) "gateway" calls counted
