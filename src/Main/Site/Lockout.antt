-- ===== src/Main/Site/Lockout.antt =====
-- ui/dashboard.go's settings, and the requests that come to the balancer after a change of them.
use poly_balance.Base.{
  ◌≡◌, refl, sym, ap, subst, ◌∙◌, String, true, inr, some, ℤ, pos, leb_ℤ, List, [], ◌∷◌, All,
}
use poly_balance.Text.{atoi}
use poly_balance.Http.{Request, Writer, unsent}
use poly_balance.Http.Mux.{follow, route}
use poly_balance.Middleware.RateLimiter.{RateLimiter}
use poly_balance.Middleware.RequestLimiter
use poly_balance.Dashboard.{handle_config}
use poly_balance.Dashboard.Lockout.{Locked, limited-Locked, set_rate_limit-Locked}
use poly_balance.Main.{System}
use poly_balance.Main.Site.{
  Outside, Visit, to_config, limiter_cell, through, serve_target, handle, handle_all, routes,
}

-- Nothing but the rate limiter has changed.
abbrev pub OnlyLimiter : System → System → Type 0
OnlyLimiter s t = (rl : RateLimiter) × (t ≡ record s { rate_limiter = rl }) × Locked rl

module _ (out : Outside) where
  handle-Locked :
      (v : Visit) (r : Request) (s : System)
      → Locked s.rate_limiter
      → OnlyLimiter s (handle out v r (s, unsent)).0
        × ((handle out v r (s, unsent)).1.sent ≡ some 429)
  unfolding handle through
  handle-Locked v r s locked =
      limited-Locked limiter_cell
        (λ q p.
          RequestLimiter.limited
            (λ q p. follow out.page (serve_target out v q) q (route out.clean routes q) p)
            p.0.request_limiter q p)
        v.arrived r s locked

  handle_all-Locked :
      (rs : List (Visit × Request)) (s : System)
      → Locked s.rate_limiter
      → OnlyLimiter s (handle_all out rs s).0 × All (λ w. w.sent ≡ some 429) (handle_all out rs s).1
  handle_all-Locked [] s locked = ((s.rate_limiter, refl, locked), tt)
  handle_all-Locked ((v, r) ∷ rs) s locked =
      let ((rl, e, still), sent) = handle-Locked v r s locked in
      let ((rl', e', last), all) =
        handle_all-Locked rs (handle out v r (s, unsent)).0
          (subst Locked (ap (λ t. t.rate_limiter) (sym e)) still) in
      ((rl', e' ∙ ap (λ (t : System). record t { rate_limiter = rl' }) e, last), (sent, all))

-- Once the handler of /api/config has taken a form that switches the rate limiter on with a maximum
-- that is not above zero, every later request is answered with 429 and changes nothing but the rate
-- limiter's table: no handler runs any more, and no request can take the setting back.
pub locked_out :
    (out : Outside) (v : Visit) (r : Request) (s : System) (w : Writer) (form : String → String)
    (n : ℤ) (rs : List (Visit × Request))
    → r.method ≡ "POST"
    → v.form ≡ inr form
    → form "rate_limit_enabled" ≡ "true"
    → atoi (form "rate_limit_max") ≡ some n
    → leb_ℤ n (pos 0) ≡ true
    → let after = (serve_target out v r to_config (s, w)).0 in
      OnlyLimiter after (handle_all out rs after).0
      × All (λ x. x.sent ≡ some 429) (handle_all out rs after).1
unfolding serve_target handle_config
locked_out out v r s w form n rs post given on number low =
    handle_all-Locked out rs (serve_target out v r to_config (s, w)).0
      (rw (post, given) (set_rate_limit-Locked form n s.rate_limiter on number low))
