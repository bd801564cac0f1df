-- ===== src/Backend/Cors.antt =====
-- `corsMiddleware` of backend/main.go.
use distributed_caching.Base.{String, List, [], ◌∷◌, ◌==◌, string_keys, if◌then◌else◌}
use distributed_caching.Base.Int.{pos}
use distributed_caching.Middleware.{WriterCall, set_header, write_header}

-- The calls on the writer, before which the headers are set; OPTIONS does not reach the router.
unfoldable pub cors_middleware : String → List WriterCall → List WriterCall
cors_middleware method calls =
    set_header "Access-Control-Allow-Origin" "http://localhost:4200"
    ∷ set_header "Access-Control-Allow-Methods" "GET, PUT, OPTIONS"
    ∷ set_header "Access-Control-Allow-Headers" "Content-Type"
    ∷ (if method == "OPTIONS" then write_header (pos 204) ∷ [] else calls)
