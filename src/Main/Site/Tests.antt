-- ===== src/Main/Site/Tests.antt =====
-- A balancer with two backends, requests to it, and the theorems at them.
use poly_balance.Base.{ℕ, ◌≡◌, refl, String, true, false, none, some, List, [], ◌∷◌, pos, All}
use poly_balance.Text.{atoi}
use poly_balance.Http.{Request, unsent, header_get}
use poly_balance.Http.Mux.{
  handled, route, has_prefix, find, matches, ends_in_slash, size, handler_at,
}
use poly_balance.Middleware.RateLimiter.{RateLimiter, new_rate_limiter, client_key, is_fresh}
use poly_balance.Dashboard.{Fetched, got}
use poly_balance.Main.{System}
use poly_balance.Main.Site.{Visit, to_config, to_toggle, routes, serve_target, handle, handle_all}
use poly_balance.Main.Site.Answered.{handle-Answered}
use poly_balance.Main.Site.Lockout.{OnlyLimiter, locked_out}
use poly_balance.Strategy.RoundRobin
use poly_balance.Main.Site.Decisions.{Happening, arrives, cleans, admitted}
use poly_balance.Main.Site.Samples.{two_backends, plain, zero_form, visit, ask}

handle-Answered_example :
    (code : ℕ) × ((handle plain visit
        (ask "GET" "/api/backends/toggle")
        (two_backends, unsent)).1.sent
      ≡ some code)
handle-Answered_example =
    handle-Answered plain visit (ask "GET" "/api/backends/toggle") two_backends

-- A request to the backends, and one that makes ten of its own.
abbrev three_requests : List (Visit × Request)
three_requests =
    (visit, ask "GET" "/")
    ∷ (visit, ask "GET" "/api/send-requests")
    ∷ (visit, ask "POST" "/orders")
    ∷ []

zero_read : atoi (zero_form "rate_limit_max") ≡ some (pos 0)
unfolding atoi
zero_read = refl

abbrev after_form : System
after_form =
    (serve_target plain visit (ask "POST" "/api/config") to_config (two_backends, unsent)).0

locked_out_example :
    OnlyLimiter after_form (handle_all plain three_requests after_form).0
    × All (λ x. x.sent ≡ some 429) (handle_all plain three_requests after_form).1
locked_out_example =
    locked_out plain visit (ask "POST" "/api/config") two_backends unsent zero_form (pos 0)
      three_requests refl refl refl zero_read refl

-- The longer pattern wins.
toggle_route : route plain.clean routes (ask "POST" "/api/backends/toggle") ≡ handled to_toggle
unfolding route handler_at find matches has_prefix ends_in_slash size
toggle_route = refl

abbrev counting : String → ℕ → ℕ → ℕ × ℕ × Fetched
counting url n s = (n, 1, got 200 none)

-- Three requests of one client to a limiter of two, and a cleanup.
abbrev burst : List Happening
burst =
    arrives visit (ask "GET" "/")
    ∷ arrives visit (ask "POST" "/orders")
    ∷ cleans 250
    ∷ arrives (record visit { arrived = 300 }) (ask "GET" "/healthz")
    ∷ []

abbrev limited_site : System
limited_site = record two_backends { rate_limiter = new_rate_limiter (pos 2) (pos 1000) true }

third_refused :
    admitted
      (pos 2)
      (pos 1000)
      (("10.0.0.1:80", 200) ∷ ("10.0.0.1:80", 200) ∷ [])
      (record visit { arrived = 300 })
      (ask "GET" "/healthz")
    ≡ false
unfolding client_key is_fresh header_get
third_refused = refl
