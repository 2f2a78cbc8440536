-- ===== src/Middleware/RateLimiter/Tests.antt =====
-- A limiter of two requests per window of 100.
use poly_balance.Base.{◌≤◌, true, pos, List, [], ◌∷◌, ◌≡◌, refl, arith}
use poly_balance.Http.{header_get}
use poly_balance.Middleware.RateLimiter.{
  new_rate_limiter, times_of, put, prune, allow, cleanup, client_key, is_fresh,
}
use poly_balance.Middleware.RateLimiter.Log.{
  Event, request, sweep, run_events, spec_events, in_window,
}
use poly_balance.Middleware.RateLimiter.Refine.{run_events-spec_events}
use poly_balance.Middleware.RateLimiter.Window.{never_over_limit}

abbrev burst : List Event
burst =
    request "a" 10
    ∷ request "a" 20
    ∷ request "a" 30
    ∷ request "b" 30
    ∷ sweep 60
    ∷ request "a" 115
    ∷ request "a" 116
    ∷ []

burst_log :
    (run_events burst (new_rate_limiter (pos 2) (pos 100) true) []).1
    ≡ ("a", 10) ∷ ("a", 20) ∷ ("b", 30) ∷ ("a", 115) ∷ []
unfolding run_events new_rate_limiter allow cleanup prune times_of put is_fresh
burst_log = refl

forwarded_key :
    client_key (record {
      method = "GET";
      remote_addr = "10.0.0.9:4711";
      header = ("X-Forwarded-For", " 1.2.3.4 , 5.6.7.8" ∷ []) ∷ [];
      host = "localhost";
      uri = "/";
      path = "/";
      raw_query = "";
      query = λ name. "";
      content_length = pos 0;
      body = [];
    })
    ≡ "1.2.3.4"
unfolding client_key header_get
forwarded_key = refl

run_events-spec_events_example :
    (run_events burst (new_rate_limiter (pos 2) (pos 100) true) []).1
    ≡ spec_events (pos 2) (pos 100) burst []
run_events-spec_events_example = run_events-spec_events (pos 2) (pos 100) burst (omega arith)

never_over_limit_example :
    in_window (pos 100) "a" 120 (run_events burst (new_rate_limiter (pos 2) (pos 100) true) []).1
    ≤ 2
never_over_limit_example = never_over_limit 2 (pos 100) burst "a" 120 (omega arith) (omega arith)
