-- ===== src/Tests/Writers.antt =====
-- A handler that sends its status late, on a writer that keeps a log.
use distributed_caching.Base.{List, [], ◌∷◌, ◌++◌}
use distributed_caching.Base.Int.{pos}
use distributed_caching.Middleware.{WriterCall, set_header, write_header, write, Writer, Counted}

abbrev log : Writer (List WriterCall)
log call calls = calls ++ call ∷ []

abbrev late : List WriterCall
late = set_header "Content-Type" "text/plain" ∷ write (104 ∷ []) ∷ write_header (pos 500) ∷ []

abbrev gone : List WriterCall
gone = write_header (pos 502) ∷ write [] ∷ write_header (pos 200) ∷ []

abbrev none_counted : Counted (List WriterCall)
none_counted = record { total_user_requests = 4; total_failed_requests = 1; world = [] }
