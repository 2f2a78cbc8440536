-- ===== src/Page/Tests.antt =====
-- A browser, and pages for the tests.
use native.Mathlib.Nat.{mul-le-mul_right}
use poly_balance.Base.{
  ℕ, ◌+◌, ◌*◌, ◌/◌, ◌≤◌, ◌<◌, ◌≡◌, refl, true, false, some, ℤ, pos, negsuc, sub_ℕ, ◌≤ℤ◌, List, [],
  ◌∷◌, arith,
}
use poly_balance.Text.{decimal, itoa}
use poly_balance.Samples.{idle, dead}
use poly_balance.Strategy.{by_round_robin}
use poly_balance.Strategy.RoundRobin.{new_round_robin}
use poly_balance.Middleware.RateLimiter.{new_rate_limiter}
use poly_balance.Middleware.RequestLimiter.{new_request_limiter}
use poly_balance.Middleware.Tls.{new_tls_config}
use poly_balance.Dashboard.{Dashboard, Sent, lost, got}
use poly_balance.Http.{header_get}
use poly_balance.Middleware.RateLimiter.{allow, client_key, times_of, is_fresh}
use poly_balance.Middleware.RequestLimiter.{header_size}
use poly_balance.Main.Site.Samples.{two_backends, plain, visit, ask}
use poly_balance.Page.Calls.{config, url_of, method_of, before_query}
use poly_balance.Page.Click.{click_apply, settled, click-settled}
use poly_balance.Page.Session.{
  Field, types, clicks_rate, chooses, status_comes, results_come, IsValid, session, session-IsValid,
}
use poly_balance.Page.{refused, answered, log, success, Browser, Page, IsSafe, fresh_page}
use poly_balance.Page.Actions.{rate_form, request_form}
use poly_balance.Page.Shown.{shown, post_config, apply-shown}
use poly_balance.Page.Report.{count_all, sort}

-- Halves are rounded up.
abbrev rounded : ℕ → ℕ → ℕ
rounded n d = (2 * n + d) / (2 * d)

rounded-le : (a b k : ℕ) → 0 < b → a ≤ b → rounded (a * k) b ≤ k
rounded-le a b k p h = grind (arith, mul-le-mul_right k h)

abbrev exact_share : ℕ → ℤ → ℕ → ℤ
exact_share a (pos b) k = pos (rounded (a * k) b)
exact_share a (negsuc b) k = sub_ℕ 0 ((2 * (a * k) + b) / (2 * (b + 1)))

exact_text : (n : ℤ) → IsSafe n → decimal n ≡ decimal n
exact_text n safe = refl

exact_bounds :
    (a b k : ℕ)
    → 0 < b
    → a ≤ b
    → (pos 0 ≤ℤ exact_share a (pos b) k) × (exact_share a (pos b) k ≤ℤ pos k)
exact_bounds a b k p h = (omega arith, omega (arith, rounded-le a b k p h))

-- Integers and quotients are exact, and no character of a query has to be encoded.
abbrev exact : Browser
exact = record {
  text_of = decimal;
  round_share = exact_share;
  encode = λ s. s;
  not_json = "not valid JSON";
  no_field = "undefined has no fields";
  no_function = "map is not a function";
  bad_count = "Invalid count value";
  text_of-safe = exact_text;
  round_share-bounds = exact_bounds;
}

-- A window of one second and a half.
abbrev board : Dashboard
board = record {
  backends = idle ∷ dead ∷ [];
  rate_limiter = new_rate_limiter (pos 15) (pos 1_500_000_000) true;
  request_limiter = new_request_limiter (pos 1000) (pos 100) false;
  tls_config = new_tls_config false "cert.pem" "key.pem" true;
  controller = record { current = by_round_robin new_round_robin; name = "round_robin" };
  start_time = 0;
}

-- Somebody is typing a maximum.
abbrev typed : Page
typed = record fresh_page { rate_limit_max = "77" }

abbrev results : List Sent
results =
    record { request_num = 1; elapsed_ms = 3; outcome = got 200 (some "a:1") }
    ∷ record { request_num = 2; elapsed_ms = 3; outcome = got 200 (some "b:2") }
    ∷ record { request_num = 3; elapsed_ms = 9; outcome = lost "timeout" }
    ∷ record { request_num = 4; elapsed_ms = 3; outcome = got 200 (some "b:2") }
    ∷ []

apply-shown_example :
    (post_config (rate_form (shown exact "noon" 9 board typed)) board ≡ record board {
      rate_limiter = record board.rate_limiter {
        window = pos (1_500_000_000 / 1_000_000_000 * 1_000_000_000);
      };
    })
    × (post_config (request_form (shown exact "noon" 9 board typed)) board ≡ board)
unfolding new_rate_limiter new_request_limiter
apply-shown_example =
    apply-shown exact "noon" 9 typed board 1_500_000_000 refl (omega arith) (omega arith)
      (omega arith) (omega arith)

summary_sorted : sort (count_all [] 0 results).0 ≡ ("b:2", 2) ∷ ("a:1", 1) ∷ []
unfolding sort count_all
summary_sorted = refl

-- Fifteen requests in sixty seconds.
abbrev filled : Page
filled = record fresh_page { rate_limit_max = "15"; rate_limit_window = "60" }

filled_max : "15" ≡ decimal (pos 15)
unfolding decimal itoa
filled_max = refl

filled_window : "60" ≡ decimal (pos 60)
unfolding decimal itoa
filled_window = refl

config-method : "POST" ≡ method_of config
unfolding method_of
config-method = refl

config-uri : "/api/config" ≡ url_of exact config
unfolding url_of
config-uri = refl

config-path : "/api/config" ≡ before_query "/api/config"
unfolding before_query
config-path = refl

click-settled_example :
    click_apply plain visit (ask "POST" "/api/config") "noon" (filled, two_backends) ≡ (
      log "noon" success "Rate limit settings updated" filled,
      settled filled
          (pos 15)
          60
          (allow (client_key (ask "POST" "/api/config")) 200 two_backends.rate_limiter).0
          two_backends,
    )
unfolding allow client_key header_get new_rate_limiter new_request_limiter times_of is_fresh
    header_size
click-settled_example =
    click-settled plain visit "noon" filled two_backends exact (ask "POST" "/api/config") (pos 15)
      60 filled_max (omega arith) filled_window (omega arith) config-method config-uri config-path
      refl refl refl refl

session-IsValid_example : IsValid (
    session exact
      (types Field.rate_max "5"
        ∷ clicks_rate
        ∷ chooses "noon" "latency"
        ∷ status_comes "one" refused
        ∷ results_come "two" "one" "latency" (pos 4) (answered results)
        ∷ [])
      fresh_page)
session-IsValid_example = session-IsValid exact (
    types Field.rate_max "5"
    ∷ clicks_rate
    ∷ chooses "noon" "latency"
    ∷ status_comes "one" refused
    ∷ results_come "two" "one" "latency" (pos 4) (answered results)
    ∷ [])
