-- ===== src/Gateway/Director.antt =====
-- The director of the reverse proxy that `NewHandler` of gateway/handler.go makes: the path under
-- which the backend gets a request.
use Prim.Native.String.{◌++◌, len, slice}
use text.Mathlib.Text.{starts_with}
use text.Mathlib.TextPositions.{slice-append_right, starts_with-append, len-append}
use distributed_caching.Base.{◌≡◌, ap, ◌∙◌, String, ◌==◌, string_keys, if◌then◌else◌}

-- Of a URL, its path and the path as it was escaped.
pub record Url : Type 0 where
  pub path : String
  pub raw_path : String

-- `strings.TrimPrefix`
unfoldable pub trim_prefix : String → String → String
trim_prefix s prefix = if starts_with s prefix then slice s (len prefix) (len s) else s

-- What the director of `NewSingleHostReverseProxy` makes of the URL is a parameter.
unfoldable pub director : (Url → Url) → Url → Url
director original_director url =
    let u = original_director url in
    record {
      path = trim_prefix u.path "/api/backend";
      raw_path = if u.raw_path == "" then u.raw_path else trim_prefix u.raw_path "/api/backend";
    }

pub trim_prefix-append : (prefix s : String) → trim_prefix (prefix ++ s) prefix ≡ s
unfolding trim_prefix
trim_prefix-append prefix s =
    rw (starts_with-append prefix s, len-append prefix s) (slice-append_right prefix s)

-- The path that the backend gets is what follows the prefix.
pub director-path :
    (original_director : Url → Url) (url : Url) (rest : String)
    → (original_director url).path ≡ "/api/backend" ++ rest
    → (director original_director url).path ≡ rest
unfolding director
director-path original_director url rest e =
    ap (λ p. trim_prefix p "/api/backend") e ∙ trim_prefix-append "/api/backend" rest
