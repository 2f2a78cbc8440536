-- ===== src/Dashboard/Tests.antt =====
-- A dashboard for the tests.
use poly_balance.Base.{
  ◌+◌, ℕ, String, true, false, pos, negsuc, [], ◌∷◌, ◌≡◌, refl, some, str_eq, if◌then◌else◌,
}
use poly_balance.Samples.{idle, dead, tripped}
use poly_balance.Text.{atoi}
use poly_balance.Backend.{is_alive}
use poly_balance.Http.{Request, Writer, write}
use poly_balance.Strategy.{by_round_robin}
use poly_balance.Strategy.RoundRobin.{new_round_robin}
use poly_balance.Middleware.RateLimiter.{new_rate_limiter, times_of, put, is_fresh, allow}
use poly_balance.Middleware.RequestLimiter.{new_request_limiter}
use poly_balance.Middleware.Tls.{new_tls_config}
use poly_balance.Dashboard.{
  Dashboard, handle_test, alive_count, health_counts, rate_counts, try_allow, times_second,
}

abbrev board : Dashboard
board = record {
  backends = idle ∷ dead ∷ tripped ∷ [];
  rate_limiter = new_rate_limiter (pos 15) (pos 1000) true;
  request_limiter = new_request_limiter (pos 1000) (pos 100) true;
  tls_config = new_tls_config false "cert.pem" "key.pem" true;
  controller = record { current = by_round_robin new_round_robin; name = "round_robin" };
  start_time = 0;
}

-- A handler that counts its calls.
abbrev counting : Request → ℕ × Writer → ℕ × Writer
counting r (n, w) = (n + 1, write "ok" w)

abbrev zero_form : String → String
zero_form name =
    if str_eq name "rate_limit_enabled"
    then "true"
    else if str_eq name "rate_limit_max"
    then "0"
    else ""

abbrev from : String → Request
from addr = record {
  method = "POST";
  remote_addr = addr;
  header = [];
  host = "localhost";
  uri = "/";
  path = "/";
  raw_query = "";
  query = λ name. "";
  content_length = pos 0;
  body = [];
}

zero_read : atoi (zero_form "rate_limit_max") ≡ some (pos 0)
unfolding atoi
zero_read = refl

health : (handle_test "health" (λ n. n) "t" board).1 ≡ health_counts 1 2
unfolding handle_test alive_count is_alive
health = refl

-- Of twenty requests at once, fifteen are allowed.
rate : (handle_test "ratelimit" (λ n. 10) "t" board).1 ≡ rate_counts 15 5
unfolding handle_test try_allow allow new_rate_limiter times_of put is_fresh
rate = refl

-- A window of 10^10 seconds wraps.
wrapped_window : times_second (pos 10_000_000_000) ≡ negsuc 8446744073709551615
unfolding times_second
wrapped_window = refl
