-- ===== src/Middleware.antt =====
-- gateway/middleware.go and gateway/response_writer.go: what stands between the router and the
-- handlers. A handler is the list of its calls on its writer; the writer of net/http is a parameter.
pub mod Statuses
use text.Mathlib.Text.{starts_with}
use distributed_caching.Base.{
  ℕ, suc, Bool, true, false, ◌&&◌, String, List, [], ◌∷◌, if◌then◌else◌, ◌==◌, string_keys,
}
use distributed_caching.Base.Int.{ℤ, pos, leb_ℤ}
use distributed_caching.Cache.{Bytes}

pub data WriterCall : Type 0 where
  set_header : String → String → WriterCall
  write_header : ℤ → WriterCall
  write : Bytes → WriterCall

-- The writer that the server of net/http passes in: what each call makes of the world.
abbrev pub Writer : Type 0 → Type 0
Writer W = WriterCall → W → W

abbrev pub run_writer : {W : Type 0} → Writer W → List WriterCall → W → W
run_writer writer [] w = w
run_writer writer (c ∷ calls) w = run_writer writer calls (writer c w)

-- The `ResponseWriter` of gateway/response_writer.go, with the world of the writer inside it.
pub record ResponseWriter (W : Type 0) : Type 0 where
  pub status_code : ℤ
  pub wrote_header : Bool
  pub world : W

-- The two counters of requests, beside the world.
pub record Counted (W : Type 0) : Type 0 where
  pub total_user_requests : ℕ
  pub total_failed_requests : ℕ
  pub world : W

-- `isUserRequest`
unfoldable pub is_user_request : String → Bool
is_user_request path = starts_with path "/api/backend/"

module _ {W : Type 0} (writer : Writer W) where
  -- `WriteHeader`
  unfoldable pub send_header : ℤ → ResponseWriter W → ResponseWriter W
  send_header code rw = if rw.wrote_header then rw else record {
    status_code = code;
    wrote_header = true;
    world = writer (write_header code) rw.world;
  }

  -- `Write`
  unfoldable pub send_data : Bytes → ResponseWriter W → ResponseWriter W
  send_data body rw =
      let ready = if rw.wrote_header then rw else send_header (pos 200) rw in
      record ready { world = writer (write body) ready.world }

  -- `Header` is that of the writer inside.
  unfoldable pub response_call : WriterCall → ResponseWriter W → ResponseWriter W
  response_call (set_header name value) rw = record rw {
    world = writer (set_header name value) rw.world;
  }
  response_call (write_header code) rw = send_header code rw
  response_call (write body) rw = send_data body rw

  unfoldable pub run_response : List WriterCall → ResponseWriter W → ResponseWriter W
  run_response [] rw = rw
  run_response (c ∷ calls) rw = run_response calls (response_call c rw)

  -- The counting after the handler returned.
  unfoldable pub count_request : String → ResponseWriter W → Counted W → Counted W
  count_request path rw s =
      if is_user_request path
      then record {
        total_user_requests = suc s.total_user_requests;
        total_failed_requests =
            if leb_ℤ (pos 500) rw.status_code
            then suc s.total_failed_requests
            else s.total_failed_requests;
        world = rw.world;
      }
      else record s { world = rw.world }

  unfoldable pub metrics_middleware : String → List WriterCall → Counted W → Counted W
  metrics_middleware path calls s =
      if path == "/metrics"
      then record s { world = run_writer writer calls s.world }
      else let rw =
          run_response calls
            (record { status_code = pos 200; wrote_header = false; world = s.world }) in
        count_request path rw s

-- `gatewayInstanceMiddleware`: the calls of the handler after its own.
unfoldable pub gateway_instance_middleware : String → List WriterCall → List WriterCall
gateway_instance_middleware instance_name calls =
    set_header "X-Gateway-Instance" instance_name ∷ calls
