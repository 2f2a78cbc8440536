-- ===== src/Main/Site.antt =====
-- cmd/main.go: the handler that the balancer listens with, and the routes behind it.
-- What a request meets outside of the program is a `Visit`. The library's parts are arguments: the
-- cleaning of paths, the page of a redirect, encoding/json, and the dashboard's page.
pub mod Ends
pub mod Answered
pub mod Connections
pub mod Lockout
pub mod Routes
pub mod Decisions
pub mod Refine
pub mod Delivery
pub mod Samples
mod Tests
use poly_balance.Base.{
  ℕ, zero, suc, ◌+◌, ◌≡◌, refl, String, Bool, true, false, Option, none, some, List, [], ◌∷◌, ◌++◌,
  pos, Cell, if◌then◌else◌, ◌⊎◌, inl, inr,
}
use poly_balance.Backend.Float.{Float64}
use poly_balance.Strategy.Hash.{Library}
use poly_balance.Http.{Header, Request, Writer, unsent, write, http_error}
use poly_balance.Http.Mux.{route, follow}
use poly_balance.Middleware.RateLimiter
use poly_balance.Middleware.RateLimiter.{RateLimiter}
use poly_balance.Middleware.RequestLimiter
use poly_balance.Server.{Attempt, serve_http, healthz, readyz}
use poly_balance.Dashboard.{
  Dashboard, Answer, failed, Fetched, lost, got, Form, handle_status, handle_backends,
  handle_config, handle_strategy, handle_test,
}
use poly_balance.Dashboard.Outgoing.{handle_toggle_backend, handle_send_requests}
use poly_balance.Main.{System}

-- The handlers that are registered.
pub data Target : Type 0 where
  to_healthz to_readyz to_page to_status to_backends to_toggle to_config to_test to_send to_strategy
        to_balancer :
      Target

-- `RegisterHealthEndpoints` and `RegisterRoutes`, and all routes of `main`.
abbrev pub health_routes : List (String × Target)
health_routes = ("/healthz", to_healthz) ∷ ("/readyz", to_readyz) ∷ []

abbrev pub dashboard_routes : List (String × Target)
dashboard_routes =
    ("/ui", to_page)
    ∷ ("/ui/", to_page)
    ∷ ("/api/status", to_status)
    ∷ ("/api/backends", to_backends)
    ∷ ("/api/backends/toggle", to_toggle)
    ∷ ("/api/config", to_config)
    ∷ ("/api/test", to_test)
    ∷ ("/api/send-requests", to_send)
    ∷ ("/api/strategy", to_strategy)
    ∷ []

abbrev pub routes : List (String × Target)
routes = (health_routes ++ dashboard_routes) ++ (("/", to_balancer) ∷ [])

-- The rate limiter, which the handlers and the dashboard share.
abbrev pub limiter_cell : Cell System RateLimiter
limiter_cell = record {
  get = λ s. s.rate_limiter;
  put = λ rl s. record s { rate_limiter = rl };
  get_put = λ rl s. refl;
  put_put = λ a b s. refl;
}

-- What a GET of `handleSendRequests` meets: it comes back to the balancer, as a request of its own
-- with an address and headers, or it goes elsewhere, since the host is what the client named.
pub record Inner : Type 0 where
  pub comes_back : Bool
  pub elsewhere : Fetched
  pub arrived : ℕ
  pub remote_addr : String
  pub header : Header
  pub attempts : ℕ → Attempt
  pub late : Option String
  pub elapsed : ℕ

-- What a request meets: the clock at the limiter, its form, what the handlers read of the clock and of
-- other servers, and what its attempts at backends meet.
pub record Visit : Type 0 where
  pub arrived : ℕ
  pub now : ℕ
  pub form : Form
  pub test_clock : ℕ → ℕ
  pub test_ip : String
  pub toggle_reply : String → String ⊎ String
  pub tls : Bool
  pub inner : ℕ → Inner
  pub attempts : ℕ → Attempt

-- What is left to the library.
pub record Outside : Type 1 where
  pub float : Float64
  pub strategies : Library
  pub clean : String → String
  pub page : String → String
  pub encode : Answer → String
  pub server_of : List String → Option String
  pub dashboard_html : String
  pub start_time : ℕ

-- The dashboard works on the parts of the system.
abbrev pub board : ℕ → System → Dashboard
board start_time s = record {
  backends = s.server.backends;
  rate_limiter = s.rate_limiter;
  request_limiter = s.request_limiter;
  tls_config = s.tls_config;
  controller = s.server.controller;
  start_time = start_time;
}

abbrev pub put_board : Dashboard → System → System
put_board d s = record s {
  server = record s.server { controller = d.controller };
  rate_limiter = d.rate_limiter;
  request_limiter = d.request_limiter;
}

module _ (out : Outside) where
  -- The encoding of an answer, or the call of `http.Error`.
  unfoldable pub deliver : Answer → Writer → Writer
  deliver (failed message code) w = http_error message code w
  deliver a w = write (out.encode a) w

  unfoldable pub balance : (ℕ → Attempt) → Request → System × Writer → System × Writer
  balance attempts r (s, w) =
      let (server, w') = serve_http out.float out.strategies attempts r.method s.server w in
      (record s { server = server }, w')

  -- The two limiters around a handler.
  unfoldable pub through :
      (Request → System × Writer → System × Writer)
      → ℕ
      → Request
      → System × Writer
      → System × Writer
  through next arrived r (s, w) =
      RateLimiter.limited limiter_cell (λ q p. RequestLimiter.limited next p.0.request_limiter q p)
        arrived r (s, w)

  -- A GET of the root, by the dashboard.
  unfoldable pub fetch_root : Visit → Request → String → ℕ → System → System × ℕ × Fetched
  unfolding through balance
  fetch_root v r url n s =
      let i = v.inner n in
      let (s', w) = through (balance i.attempts) i.arrived (root_request i) (s, unsent) in
      let status = elim w.sent as (λ _. ℕ) [ none ↦ 200 | some code ↦ code ] in
      if i.comes_back
      then (
        s',
        i.elapsed,
        elim i.late [ none ↦ got status (out.server_of w.body) | some error ↦ lost error ],
      )
      else (s, i.elapsed, i.elsewhere)
    where
      root_request : Inner → Request
      root_request i = record {
        method = "GET";
        host = r.host;
        uri = "/";
        path = "/";
        raw_query = "";
        query = λ name. "";
        remote_addr = i.remote_addr;
        header = i.header;
        content_length = pos 0;
        body = [];
      }

  unfoldable pub serve_target : Visit → Request → Target → System × Writer → System × Writer
  unfolding deliver balance fetch_root
  serve_target v r to_healthz (s, w) = (s, healthz w)
  serve_target v r to_readyz (s, w) = (s, readyz s.server w)
  serve_target v r to_page (s, w) = (s, write out.dashboard_html w)
  serve_target v r to_status (s, w) = (s, deliver (handle_status v.now (board out.start_time s)) w)
  serve_target v r to_backends (s, w) = (s, deliver (handle_backends (board out.start_time s)) w)
  serve_target v r to_toggle (s, w) = (s, deliver (handle_toggle_backend v.toggle_reply r) w)
  serve_target v r to_config (s, w) =
      let (d, a) = handle_config r.method v.form (board out.start_time s) in
      (put_board d s, deliver a w)
  serve_target v r to_test (s, w) =
      let (d, a) = handle_test (r.query "type") v.test_clock v.test_ip (board out.start_time s) in
      (put_board d s, deliver a w)
  serve_target v r to_send (s, w) =
      let (s', a) = handle_send_requests v.tls (fetch_root v r) r s in (s', deliver a w)
  serve_target v r to_strategy (s, w) =
      let (d, a) = handle_strategy r.method v.form (board out.start_time s) in
      (put_board d s, deliver a w)
  serve_target v r to_balancer (s, w) = balance v.attempts r (s, w)

  -- The handler of the listener.
  unfoldable pub handle : Visit → Request → System × Writer → System × Writer
  unfolding through serve_target
  handle v r (s, w) =
      through (λ q p. follow out.page (serve_target v q) q (route out.clean routes q) p) v.arrived r
        (s, w)

  -- Requests one after the other, each with a writer of its own.
  abbrev pub handle_all : List (Visit × Request) → System → System × List Writer
  handle_all [] s = (s, [])
  handle_all ((v, r) ∷ rs) s =
      let (s', w) = handle v r (s, unsent) in let (s'', ws) = handle_all rs s' in (s'', w ∷ ws)
