-- ===== src/Middleware/Statuses.antt =====
-- The status that gateway/response_writer.go records is the one that is sent.
use distributed_caching.Base.{
  suc, ◌≡◌, refl, Bool, true, false, ◌&&◌, String, List, [], ◌∷◌, if◌then◌else◌, ◌==◌, string_keys,
  Bool-cases, inl, inr,
}
use distributed_caching.Base.Int.{ℤ, pos, leb_ℤ}
use distributed_caching.Middleware.{
  WriterCall, set_header, write_header, write, Writer, run_writer, Counted, is_user_request,
  send_header, send_data, response_call, run_response, count_request, metrics_middleware,
}

-- The calls without those that set a status.
abbrev pub without_headers : List WriterCall → List WriterCall
without_headers [] = []
without_headers (set_header name value ∷ calls) = set_header name value ∷ without_headers calls
without_headers (write_header code ∷ calls) = without_headers calls
without_headers (write body ∷ calls) = write body ∷ without_headers calls

-- One status before the first data, and none after it.
abbrev pub with_one_header : List WriterCall → List WriterCall
with_one_header [] = []
with_one_header (set_header name value ∷ calls) = set_header name value ∷ with_one_header calls
with_one_header (write_header code ∷ calls) = write_header code ∷ without_headers calls
with_one_header (write body ∷ calls) = write_header (pos 200) ∷ write body ∷ without_headers calls

-- The status that the client gets; net/http sends 200 where none is set.
abbrev pub status_sent : List WriterCall → ℤ
status_sent [] = pos 200
status_sent (set_header name value ∷ calls) = status_sent calls
status_sent (write_header code ∷ calls) = code
status_sent (write body ∷ calls) = pos 200

abbrev pub is_sent : List WriterCall → Bool
is_sent [] = false
is_sent (set_header name value ∷ calls) = is_sent calls
is_sent (write_header code ∷ calls) = true
is_sent (write body ∷ calls) = true

module _ {W : Type 0} (writer : Writer W) where
  run_response_sent :
      (calls : List WriterCall) (code : ℤ) (w : W)
      → run_response writer calls (record { status_code = code; wrote_header = true; world = w })
        ≡ record {
          status_code = code;
          wrote_header = true;
          world = run_writer writer (without_headers calls) w;
        }
  unfolding run_response response_call send_header send_data
  run_response_sent [] code w = refl
  run_response_sent (set_header name value ∷ calls) code w = run_response_sent calls code _
  run_response_sent (write_header c ∷ calls) code w = run_response_sent calls code w
  run_response_sent (write body ∷ calls) code w = run_response_sent calls code _

  -- For any list of calls on a fresh ResponseWriter, the status that it records is the one that is
  -- sent, 200 where data comes before any status, and the writer inside gets the calls with that
  -- one status before the first data and no other status.
  pub run_response-with_one_header :
      (calls : List WriterCall) (w : W)
      → run_response writer calls
          (record { status_code = pos 200; wrote_header = false; world = w })
        ≡ record {
          status_code = status_sent calls;
          wrote_header = is_sent calls;
          world = run_writer writer (with_one_header calls) w;
        }
  unfolding run_response response_call send_header send_data
  run_response-with_one_header [] w = refl
  run_response-with_one_header (set_header name value ∷ calls) w =
      run_response-with_one_header calls _
  run_response-with_one_header (write_header c ∷ calls) w = run_response_sent calls c _
  run_response-with_one_header (write body ∷ calls) w = run_response_sent calls (pos 200) _

  -- For a path other than /metrics, the metrics middleware counts a user request exactly if the
  -- path starts with /api/backend/, counts it as failed exactly if the status that the client gets
  -- is at least 500, and passes on the calls of the handler with one status before the first data
  -- and none after it.
  pub metrics_middleware-counts :
      (path : String) (calls : List WriterCall) (s : Counted W)
      → (path == "/metrics") ≡ false
      → metrics_middleware writer path calls s ≡ record {
        total_user_requests =
            if is_user_request path then suc s.total_user_requests else s.total_user_requests;
        total_failed_requests =
            if is_user_request path && leb_ℤ (pos 500) (status_sent calls)
            then suc s.total_failed_requests
            else s.total_failed_requests;
        world = run_writer writer (with_one_header calls) s.world;
      }
  unfolding metrics_middleware count_request
  metrics_middleware-counts path calls s other =
      rw (other, run_response-with_one_header calls s.world, metrics_middleware, count_request)
        (elim (Bool-cases (is_user_request path)) [
          | inl user ↦ rw user refl
          | inr no_user ↦ rw no_user refl
        ])
