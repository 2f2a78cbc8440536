-- ===== src/Proxy.antt =====
-- proxy/reverse_proxy.go: one proxied request to one backend.
-- The library's ReverseProxy is a parameter through its outcome: the backend answers, and the
-- answer is checked by ModifyResponse and copied to the writer, or the round trip fails and
-- ErrorHandler takes over.
pub mod Laws
pub mod Headers
pub mod Sinks
mod Tests
use poly_balance.Base.{
  ℕ, String, Bool, true, false, Option, none, some, ℤ, pos, sub_ℕ, List, [], ◌∷◌, ◌&&◌,
  if◌then◌else◌, str_eq, ◌+◌, ◌%◌,
}
use Prim.Native.String.{◌++◌}
use poly_balance.Backend.Float.{Float64}
use poly_balance.Backend.{
  Backend, is_open, check_circuit_state, get_circuit_state, can_attempt_half_open,
  set_circuit_half_open, inc_connections, dec_connections, record_latency, record_failure,
  record_success,
}
use poly_balance.Http.{Header, header_get, header_set}

-- The writer that the proxy is handed: the server's, or the server's behind a recorder.
pub record Sink (W : Type 0) : Type 0 where
  pub put_header : ℕ → W → W
  pub put : String → W → W

pub data Outcome : Type 0 where
  answered : ℕ → List String → Outcome
  unreachable : Outcome

-- What one pass through the proxy meets: the clock at the gate, at the start, when the round trip
-- fails, and at the end, and the outcome.
pub record Exchange : Type 0 where
  pub gate_at : ℕ
  pub start_at : ℕ
  pub fail_at : ℕ
  pub end_at : ℕ
  pub outcome : Outcome

-- `handleSuccess`, whatever the status of the response.
unfoldable pub handle_success : Backend → Backend
handle_success b = record_success b

-- The transition to half-open, after the gate.
unfoldable pub probe : ℕ → Backend → Backend
probe now b =
    if is_open (get_circuit_state b) && can_attempt_half_open b now
    then set_circuit_half_open b
    else b

-- After the response: the latency is recorded, and then the connection given back.
unfoldable pub finish : {W : Type 0} → Float64 → Exchange → Backend × W → Backend × W
finish fl x (b, w) = (dec_connections (record_latency fl (sub_ℕ x.end_at x.start_at) b), w)

module _ {W : Type 0} (sink : Sink W) where
  open sink use {put_header, put}

  -- `http.Error` through the sink.
  unfoldable pub sink_error : String → ℕ → W → W
  sink_error message code w = put message (put_header code w)

  -- `handleError`.
  unfoldable pub handle_error : ℕ → Backend × W → Backend × W
  unfolding sink_error
  handle_error now (b, w) =
      (record_failure now b, sink_error "Error contacting backend server" 502 w)

  unfoldable pub copy_body : List String → W → W
  copy_body [] w = w
  copy_body (chunk ∷ chunks) w = copy_body chunks (put chunk w)

  -- `p.proxy.ServeHTTP`, with the two hooks that `NewProxy` installs.
  unfoldable pub forward : Exchange → Outcome → Backend × W → Backend × W
  unfolding copy_body handle_error handle_success
  forward x (answered status chunks) (b, w) =
      (handle_success b, copy_body chunks (put_header status w))
  forward x unreachable (b, w) = handle_error x.fail_at (b, w)

  -- `ServeHTTP`.
  unfoldable pub serve : Float64 → Exchange → Backend → W → Backend × W
  serve fl x b w =
      if check_circuit_state b x.gate_at
      then finish fl x (forward x x.outcome (inc_connections (probe x.gate_at b), w))
      else (b, sink_error "Backend temporarily unavailable" 503 w)

-- `prepareRequest`: the client's address is appended to X-Forwarded-For, if `net.SplitHostPort`
-- gives one, and a request without an identifier gets one from the clock and the counter.
-- `split_host` and `sprint` are the library's SplitHostPort and Sprintf.
unfoldable pub forwarded_for : Option String → Header → Header
forwarded_for none h = h
forwarded_for (some client) h =
    if str_eq (header_get "X-Forwarded-For" h) ""
    then header_set "X-Forwarded-For" client h
    else header_set "X-Forwarded-For" (header_get "X-Forwarded-For" h ++ (", " ++ client)) h

unfoldable pub request_id : (ℕ → ℕ → String) → ℕ → ℕ × Header → ℕ × Header
request_id sprint now (counter, h) =
    if str_eq (header_get "X-Request-ID" h) ""
    then (next, header_set "X-Request-ID" (sprint now next) h)
    else (counter, h)
  where
    next : ℕ
    next = (counter + 1) % 18446744073709551616

unfoldable pub prepare_request :
    (String → Option String) → (ℕ → ℕ → String) → ℕ → String → ℕ × Header → ℕ × Header
prepare_request split_host sprint now remote_addr (counter, h) =
    request_id sprint now (counter, forwarded_for (split_host remote_addr) h)
