-- ===== src/Main/Site/Samples.antt =====
-- A balancer with two backends, and requests to it, for the tests.
use poly_balance.Base.{ℕ, String, true, false, none, [], ◌∷◌, pos, inl, inr, str_eq, if◌then◌else◌}
use poly_balance.Samples.{idle, loaded}
use poly_balance.Backend.Float.{fractions}
use poly_balance.Strategy.{by_round_robin}
use poly_balance.Strategy.RoundRobin.{new_round_robin}
use poly_balance.Strategy.Hash.Insertion.{simple_library}
use poly_balance.Http.{Request}
use poly_balance.Proxy.{answered}
use poly_balance.Health.{new_health_checker}
use poly_balance.Middleware.RateLimiter.{new_rate_limiter}
use poly_balance.Middleware.RequestLimiter.{new_request_limiter}
use poly_balance.Middleware.Tls.{new_tls_config}
use poly_balance.Server.{Attempt}
use poly_balance.Dashboard.{lost}
use poly_balance.Main.{System}
use poly_balance.Main.Site.{Outside, Visit, Inner}

abbrev pub two_backends : System
two_backends = record {
  server = record {
    backends = idle ∷ loaded ∷ [];
    controller = record { current = by_round_robin new_round_robin; name = "round_robin" };
  };
  rate_limiter = new_rate_limiter (pos 15) (pos 1000) true;
  request_limiter = new_request_limiter (pos 1000) (pos 100) true;
  tls_config = new_tls_config false "cert.pem" "key.pem" true;
  health_checker = new_health_checker (pos 0) (pos 0) "/healthz";
}

abbrev pub plain : Outside
plain = record {
  float = fractions;
  strategies = simple_library;
  clean = λ path. path;
  page = λ target. target;
  encode = λ a. "{}";
  server_of = λ body. none;
  dashboard_html = "<html>";
  start_time = 0;
}

abbrev pub answering : ℕ → Attempt
answering n = record {
  pick_at = 500;
  exchange = record {
    gate_at = 510;
    start_at = 520;
    fail_at = 530;
    end_at = 540;
    outcome = answered 200 ("hello" ∷ []);
  };
}

abbrev pub comes_back : Inner
comes_back = record {
  comes_back = true;
  elsewhere = lost "";
  arrived = 300;
  remote_addr = "127.0.0.1:1";
  header = [];
  attempts = answering;
  late = none;
  elapsed = 1;
}

-- The form switches the rate limiter on, with a maximum of 0.
abbrev pub zero_form : String → String
zero_form name =
    if str_eq name "rate_limit_enabled"
    then "true"
    else if str_eq name "rate_limit_max"
    then "0"
    else ""

abbrev pub visit : Visit
visit = record {
  arrived = 200;
  now = 200;
  form = inr zero_form;
  test_clock = λ n. 200;
  test_ip = "test";
  toggle_reply = λ url. inl "refused";
  tls = false;
  inner = λ n. comes_back;
  attempts = answering;
}

abbrev pub ask : String → String → Request
ask method path = record {
  method = method;
  host = "localhost";
  uri = path;
  path = path;
  raw_query = "";
  query = λ name. "";
  remote_addr = "10.0.0.1:80";
  header = [];
  content_length = pos 0;
  body = [];
}
