-- ===== src/Server.antt =====
-- server/: the balancer's handler with its retries, and the strategy controller.
pub mod Controller
pub mod Writers
pub mod Laws
pub mod Delivery
pub mod Concurrent
mod Tests
use poly_balance.Base.{
  ℕ, zero, suc, ◌+◌, String, Bool, true, false, not, ◌||◌, Option, none, some, List, [], ◌∷◌, ◌==◌,
  str_eq, if◌then◌else◌, get_elem?, modify, length,
}
use poly_balance.Backend.Float.{Float64}
use poly_balance.Backend.{Backend}
use poly_balance.Strategy.{Strategy, next_backend}
use poly_balance.Strategy.Hash.{Library}
use poly_balance.Http.{Writer, write_header, write, http_error}
use poly_balance.Proxy.{Sink, Exchange, serve}
use Controller.{StrategyController}

pub record Server : Type 0 where
  pub backends : List Backend
  pub controller : StrategyController

-- `NewServer` refuses an empty list.
unfoldable pub new_server : List Backend → StrategyController → Option Server
new_server bs controller =
    if length bs == 0 then none else some (record { backends = bs; controller = controller })

unfoldable pub healthz : Writer → Writer
unfolding write write_header
healthz w = write "ok" (write_header 200 w)

unfoldable pub readyz : Server → Writer → Writer
unfolding http_error
readyz s w =
    if length s.backends == 0
    then http_error "no backends available" 503 w
    else write "ready" (write_header 200 w)

unfoldable pub is_retryable_method : String → Bool
is_retryable_method method = str_eq method "GET" || str_eq method "HEAD" || str_eq method "OPTIONS"

unfoldable pub is_retryable_status : ℕ → Bool
is_retryable_status code = code == 502 || code == 503 || code == 504

-- `responseRecorder`: it notes the status and passes everything on to the client's writer.
pub record Recorder : Type 0 where
  pub writer : Writer
  pub status : ℕ

unfoldable pub record_header : ℕ → Recorder → Recorder
record_header code r = record { writer = write_header code r.writer; status = code }

unfoldable pub record_write : String → Recorder → Recorder
record_write chunk r = record {
  writer = write chunk r.writer;
  status = if r.status == 0 then 200 else r.status;
}

abbrev pub writer_sink : Sink Writer
writer_sink = record { put_header = write_header; put = write }

abbrev pub recorder_sink : Sink Recorder
recorder_sink = record { put_header = record_header; put = record_write }

abbrev pub max_retries : ℕ
max_retries = 2

-- What one attempt meets: the clock at the pick, and the exchange with the backend.
pub record Attempt : Type 0 where
  pub pick_at : ℕ
  pub exchange : Exchange

unfoldable pub no_backend : Writer → Writer
no_backend w = http_error "No backend available" 503 w

-- After an attempt that is not to be retried.
unfoldable pub settle : Recorder → Writer
settle r = if r.status == 0 then r.writer else write_header r.status r.writer

module _ (fl : Float64) (lib : Library) (env : ℕ → Attempt) where
  -- `strat.NextBackend(s.Backends)`: the strategy object keeps its new state.
  unfoldable pub choose : ℕ → Server → Server × Option ℕ
  choose n s =
      let (strategy, picked) = next_backend lib s.controller.current s.backends (env n).pick_at in
      (record s { controller = record s.controller { current = strategy } }, picked)

  -- Proxying through the backend at position `i`, which changes it in place. No strategy returns a
  -- position out of range.
  unfoldable pub proxy_to : {W : Type 0} → Sink W → ℕ → ℕ → Server → W → Server × W
  proxy_to sink n i s w = elim (get_elem? s.backends i) [
    | none ↦ (s, w)
    | some b ↦
        let (b', w') = serve sink fl (env n).exchange b w in
        (record s { backends = modify s.backends i (λ _. b') }, w')
  ]

  -- The branch of the methods that are not retried.
  unfoldable pub serve_once : Server → Writer → Server × Writer
  serve_once s w =
      let (s', picked) = choose 0 s in
      elim picked [ none ↦ (s', no_backend w) | some i ↦ proxy_to writer_sink 0 i s' w ]

  -- The loop: attempt `n`, with `left` attempts to go.
  unfoldable pub serve_retrying : ℕ → ℕ → ℕ → Server → Writer → Server × Writer
  serve_retrying zero n last_status s w =
      (s, http_error "Request failed after retries" last_status w)
  serve_retrying (suc left) n last_status s w =
      let (s', picked) = choose n s in
      elim picked [
        | none ↦ (s', no_backend w)
        | some i ↦
            let (s'', r) = proxy_to recorder_sink n i s' (record { writer = w; status = 0 }) in
            let again = serve_retrying left (n + 1) r.status s'' r.writer in
            if not (is_retryable_status r.status) then (s'', settle r) else again
      ]

  -- `ServeHTTP`.
  unfoldable pub serve_http : String → Server → Writer → Server × Writer
  serve_http method s w =
      if not (is_retryable_method method)
      then serve_once s w
      else serve_retrying (suc max_retries) 0 0 s w
