-- ===== src/Main/Site/Answered.antt =====
-- The handler of cmd/main.go's listener: the answers of all its ways.
use poly_balance.Base.{ℕ, ◌≡◌, refl, some, length, ◌==◌, str_eq, if_elim}
use poly_balance.Http.{Request, Writer, unsent, write, write_header, http_error, redirect}
use poly_balance.Http.Mux.{Route, bad_request, not_found, moved, handled, follow, route}
use poly_balance.Server.{healthz, readyz}
use poly_balance.Server.Writers.{serve_http-Answered}
use poly_balance.Dashboard.{Answer, failed}
use poly_balance.Main.{System}
use poly_balance.Main.Site.{
  Outside, Visit, Target, to_healthz, to_readyz, to_page, to_status, to_backends, to_toggle,
  to_config, to_test, to_send, to_strategy, to_balancer, deliver, balance, serve_target, handle,
  routes,
}
use poly_balance.Main.Site.Ends.{through-ends, refusal}

abbrev Answered : System × Writer → Type 0
Answered (s, w) = (code : ℕ) × (w.sent ≡ some code)

deliver-sent : (out : Outside) (a : Answer) → (code : ℕ) × ((deliver out a unsent).sent ≡ some code)
unfolding deliver http_error write write_header
deliver-sent out (failed message code) = (code, refl)
deliver-sent out a = (200, refl)

readyz-sent : (s : System) → (code : ℕ) × ((readyz s.server unsent).sent ≡ some code)
unfolding readyz http_error write write_header
readyz-sent s =
    if_elim (λ (w : Writer). (code : ℕ) × (w.sent ≡ some code)) (length s.server.backends == 0)
      (503, refl) (200, refl)

target-Answered :
    (out : Outside) (v : Visit) (r : Request) (t : Target) (s : System)
    → Answered (serve_target out v r t (s, unsent))
unfolding serve_target write write_header healthz balance
target-Answered out v r to_healthz s = (200, refl)
target-Answered out v r to_readyz s = readyz-sent s
target-Answered out v r to_page s = (200, refl)
target-Answered out v r to_balancer s =
    serve_http-Answered out.float out.strategies v.attempts r.method s.server unsent
target-Answered out v r to_status s = deliver-sent out _
target-Answered out v r to_backends s = deliver-sent out _
target-Answered out v r to_toggle s = deliver-sent out _
target-Answered out v r to_config s = deliver-sent out _
target-Answered out v r to_test s = deliver-sent out _
target-Answered out v r to_send s = deliver-sent out _
target-Answered out v r to_strategy s = deliver-sent out _

follow-Answered :
    (out : Outside) (v : Visit) (r : Request) (goal : Route Target) (s : System)
    → Answered (follow out.page (serve_target out v r) r goal (s, unsent))
unfolding follow http_error redirect write write_header
follow-Answered out v r bad_request s = (400, refl)
follow-Answered out v r not_found s = (404, refl)
follow-Answered out v r (moved target) s =
    if_elim (λ (w : Writer). (code : ℕ) × (w.sent ≡ some code)) (str_eq r.method "GET") (301, refl)
      (301, refl)
follow-Answered out v r (handled t) s = target-Answered out v r t s

-- Whatever a client asks for, whatever the limits, the settings and the strategy are, and whatever
-- the backends do, the client has been sent a status when the handler returns.
pub handle-Answered :
    (out : Outside) (v : Visit) (r : Request) (s : System)
    → (code : ℕ) × ((handle out v r (s, unsent)).1.sent ≡ some code)
unfolding handle refusal write write_header
handle-Answered out v r s =
    through-ends out Answered _ v.arrived r s (λ rl code message. (code, refl))
      (λ rl q. follow-Answered out v q (route out.clean routes q) (record s { rate_limiter = rl }))
