-- ===== src/Page/Click.antt =====
-- ui/dashboard.go: a click of the button for the rate limiter, through the whole balancer.
use poly_balance.Base.{
  ℕ, ◌*◌, ◌<◌, ◌≡◌, refl, sym, ap, ◌∙◌, subst, String, true, false, not, none, some, ℤ, pos, ltb_ℤ,
  inr, if_elim, then_branch, else_branch,
}
use poly_balance.Text.{decimal}
use poly_balance.Http.{Request, Writer, unsent}
use poly_balance.Http.Mux.{Route, handled, follow, route}
use poly_balance.Middleware.RateLimiter
use poly_balance.Middleware.RateLimiter.{RateLimiter, allow, client_key}
use poly_balance.Middleware.RequestLimiter
use poly_balance.Middleware.RequestLimiter.{header_size, max_bytes_reader}
use poly_balance.Dashboard.{handle_config}
use poly_balance.Main.{System}
use poly_balance.Main.Site.{
  Outside, Visit, Target, to_config, board, put_board, through, serve_target, handle, routes,
}
use poly_balance.Main.Site.Refine.{route_body}
use poly_balance.Page.{Browser, Page, IsSafe, success, log}
use poly_balance.Page.Actions.{rate_form, form_value, rate_limit_updated}
use poly_balance.Page.Typed.{config-typed}
use poly_balance.Page.Calls.{config, url_of, method_of, before_query, call-routed}

-- The status of an answer; the fetch succeeds whatever it is.
abbrev pub status_of : Writer → ℕ
status_of w = elim w.sent [ none ↦ 200 | some code ↦ code ]

-- The page and the balancer after the click; `v` and `r` are what the request meets and is, but for
-- its form.
unfoldable pub click_apply : Outside → Visit → Request → String → Page × System → Page × System
click_apply out v r time (p, s) =
    let (s', w) = handle out (record v { form = inr (form_value (rate_form p)) }) r (s, unsent) in
    (rate_limit_updated time (inr (status_of w)) p, s')

-- The system with the settings that the page sends, and a table.
abbrev pub settled : Page → ℤ → ℕ → RateLimiter → System → System
settled p n secs rl s = record s {
  rate_limiter = record rl {
    enabled = p.rate_limit_enabled;
    max_requests = n;
    window = pos (secs * 1_000_000_000);
  };
}

module _ (out : Outside) (v : Visit) (time : String) (p : Page) (s : System) where
  -- When the rate limiter refuses the request, the balancer keeps its settings, but the page reports
  -- that they were updated.
  pub click-refused :
      (r : Request)
      → (allow (client_key r) v.arrived s.rate_limiter).1 ≡ false
      → click_apply out v r time (p, s) ≡ (
        log time success "Rate limit settings updated" p,
        record s { rate_limiter = (allow (client_key r) v.arrived s.rate_limiter).0 },
      )
  unfolding click_apply handle through RateLimiter.limited rate_limit_updated
  click-refused r refused = rw refused refl

  module _ (n : ℤ) (secs : ℕ) (max : p.rate_limit_max ≡ decimal n) (safe : IsSafe n)
      (window : p.rate_limit_window ≡ decimal (pos secs)) (short : secs < 8_388_608)
      (rl : RateLimiter) where
    abbrev visit : Visit
    visit = record v { form = inr (form_value (rate_form p)) }

    abbrev IsSettled : System × Writer → Type 0
    IsSettled q = q.0 ≡ settled p n secs rl s

    config-IsSettled :
        (r : Request)
        → r.method ≡ "POST"
        → IsSettled (serve_target out visit r to_config (record s { rate_limiter = rl }, unsent))
    unfolding serve_target
    config-IsSettled r post =
        let s' : System = record s { rate_limiter = rl } in
        ap
          (λ m.
            put_board (handle_config m (inr (form_value (rate_form p))) (board out.start_time s')).0
              s')
          post
        ∙ ap (λ d. put_board d s')
            (config-typed p (board out.start_time s') n secs max safe window short)

    follow-IsSettled :
        (r : Request)
        → r.method ≡ "POST"
        → route out.clean routes r ≡ handled to_config
        → IsSettled (
            follow out.page
              (serve_target out visit r)
              r
              (route out.clean routes r)
              (record s { rate_limiter = rl }, unsent))
    unfolding follow
    follow-IsSettled r post goal =
        subst
          (λ (g : Route Target). IsSettled (
            follow out.page (serve_target out visit r) r g
              (record s { rate_limiter = rl }, unsent)))
          (sym goal) (config-IsSettled r post)

    limited-IsSettled :
        (r : Request)
        → r.method ≡ "POST"
        → route out.clean routes r ≡ handled to_config
        → ltb_ℤ s.request_limiter.max_header_size (pos (header_size 0 r.header)) ≡ false
        → ltb_ℤ s.request_limiter.max_body_size r.content_length ≡ false
        → IsSettled (
            RequestLimiter.limited
              (λ q x. follow out.page (serve_target out visit q) q (route out.clean routes q) x)
              s.request_limiter
              r
              (record s { rate_limiter = rl }, unsent))
    unfolding RequestLimiter.limited
    limited-IsSettled r post goal headers body =
        let q = record r { body = max_bytes_reader s.request_limiter.max_body_size r.body } in
        let within = follow-IsSettled q post (route_body out r q.body ∙ goal) in
        if_elim IsSettled (not s.request_limiter.enabled) (follow-IsSettled r post goal) (
          subst IsSettled (sym (else_branch _ _ _ headers))
            (subst IsSettled (sym (else_branch _ _ _ body)) within))

  -- When both limiters admit the request of the click, the balancer has the numbers that are typed and
  -- the page's switch, with the table that the admission left, and nothing else has changed; the page
  -- reports that they were updated. The numbers are written in decimal, the maximum is below 2^53 in
  -- size, the window is below 2^23 seconds, and the cleaning of paths leaves the request's path as it
  -- is.
  pub click-settled :
      (b : Browser) (r : Request) (n : ℤ) (secs : ℕ)
      → p.rate_limit_max ≡ decimal n
      → IsSafe n
      → p.rate_limit_window ≡ decimal (pos secs)
      → secs < 8_388_608
      → r.method ≡ method_of config
      → r.uri ≡ url_of b config
      → r.path ≡ before_query r.uri
      → out.clean r.path ≡ r.path
      → (allow (client_key r) v.arrived s.rate_limiter).1 ≡ true
      → ltb_ℤ s.request_limiter.max_header_size (pos (header_size 0 r.header)) ≡ false
      → ltb_ℤ s.request_limiter.max_body_size r.content_length ≡ false
      → click_apply out v r time (p, s) ≡ (
        log time success "Rate limit settings updated" p,
        settled p n secs (allow (client_key r) v.arrived s.rate_limiter).0 s,
      )
  unfolding click_apply handle through RateLimiter.limited rate_limit_updated method_of
  click-settled b r n secs max safe window short method uri path cleaned admitted headers body =
      let rl = (allow (client_key r) v.arrived s.rate_limiter).0 in
      let goal = call-routed b out.clean config r method uri path cleaned in
      let within = limited-IsSettled n secs max safe window short rl r method goal headers body in
      ap (λ t. (log time success "Rate limit settings updated" p, t))
        (ap (λ (x : System × Writer). x.0)
            (then_branch (allow (client_key r) v.arrived s.rate_limiter).1 _ _ admitted)
          ∙ within)
