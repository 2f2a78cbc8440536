-- ===== src/Page/Typed.antt =====
-- ui/dashboard.go: numbers that are typed on the page, sent by its buttons, and shown again.
use poly_balance.Base.{
  ℕ, ◌*◌, ◌/◌, ◌%◌, ◌<◌, ◌≡◌, refl, sym, ap, ◌∙◌, String, some, ℤ, pos, leb, max_int64, then_branch,
  arith,
}
use poly_balance.Text.{atoi, decimal}
use poly_balance.Text.Decimal.{atoi-decimal}
use poly_balance.Middleware.RateLimiter
use poly_balance.Middleware.RateLimiter.{RateLimiter, whole_seconds}
use poly_balance.Middleware.RequestLimiter
use poly_balance.Middleware.RequestLimiter.{RequestLimiter}
use poly_balance.Dashboard.{
  Dashboard, handle_status, handle_config, report, set_request_limit, times_second,
}
use poly_balance.Page.{Browser, Page, IsSafe, fetch_status, status_reply}
use poly_balance.Page.Actions.{rate_form, form_value}
use poly_balance.Page.Shown.{shown, post_config, rate_limit_taken, safe-IsInt64}

typed-atoi : (s : String) (n : ℤ) → s ≡ decimal n → IsSafe n → atoi s ≡ some n
typed-atoi s n e safe = ap atoi e ∙ atoi-decimal n (safe-IsInt64 n safe)

typed_window : (secs : ℕ) → secs < 8_388_608 → times_second (pos secs) ≡ pos (secs * 1_000_000_000)
unfolding times_second
typed_window secs h =
    let same : secs * 1_000_000_000 % 18446744073709551616 ≡ secs * 1_000_000_000 = omega arith in
    rw same (then_branch (leb (secs * 1_000_000_000) max_int64) _ _ (ground arith))

seconds_back : (secs : ℕ) → whole_seconds (pos (secs * 1_000_000_000)) ≡ pos secs
unfolding whole_seconds
seconds_back secs = let e : secs * 1_000_000_000 / 1_000_000_000 ≡ secs = omega arith in ap pos e

-- What is typed and sent is what the balancer has, with the page's switch, and what every page shows
-- after its next status.
module _ (p : Page) (d : Dashboard) where
  rate-typed :
      (n : ℤ) (secs : ℕ)
      → p.rate_limit_max ≡ decimal n
      → IsSafe n
      → p.rate_limit_window ≡ decimal (pos secs)
      → secs < 8_388_608
      → (post_config (rate_form p) d).rate_limiter ≡ record d.rate_limiter {
        enabled = p.rate_limit_enabled;
        max_requests = n;
        window = pos (secs * 1_000_000_000);
      }
  unfolding handle_config rate_form form_value RateLimiter.set_limits RateLimiter.set_enabled
  rate-typed n secs max safe window h =
      let taken =
        rate_limit_taken (form_value (rate_form p)) d.rate_limiter p.rate_limit_enabled n (pos secs)
          refl (typed-atoi p.rate_limit_max n max safe)
          (typed-atoi p.rate_limit_window (pos secs) window (omega arith)) in
      taken
      ∙ ap
          (λ v. record d.rate_limiter {
            enabled = p.rate_limit_enabled;
            max_requests = n;
            window = v;
          })
          (typed_window secs h)

  pub config-typed :
      (n : ℤ) (secs : ℕ)
      → p.rate_limit_max ≡ decimal n
      → IsSafe n
      → p.rate_limit_window ≡ decimal (pos secs)
      → secs < 8_388_608
      → post_config (rate_form p) d ≡ record d {
        rate_limiter = record d.rate_limiter {
          enabled = p.rate_limit_enabled;
          max_requests = n;
          window = pos (secs * 1_000_000_000);
        };
      }
  unfolding handle_config rate_form form_value set_request_limit
  config-typed n secs max safe window h =
      ap (λ rl. record d { rate_limiter = rl }) (rate-typed n secs max safe window h)

  -- The numbers that are typed for the rate limiter and sent by the button are those that the
  -- balancer has, with the page's switch, and those that any page shows once a later status has
  -- arrived, if they are written in decimal, the maximum is below 2^53 in size, and the window is
  -- below 2^23 seconds; the rest of the balancer is left alone.
  pub typed-shown :
      (b : Browser) (time : String) (now : ℕ) (q : Page) (n : ℤ) (secs : ℕ)
      → p.rate_limit_max ≡ decimal n
      → IsSafe n
      → p.rate_limit_window ≡ decimal (pos secs)
      → secs < 8_388_608
      → let d' = post_config (rate_form p) d in
        let q' = shown b time now d' q in
        (d' ≡ record d {
          rate_limiter = record d.rate_limiter {
            enabled = p.rate_limit_enabled;
            max_requests = n;
            window = pos (secs * 1_000_000_000);
          };
        })
        × (q'.rate_limit_max ≡ p.rate_limit_max)
        × (q'.rate_limit_window ≡ p.rate_limit_window)
        × (q'.rate_limit_active ≡ p.rate_limit_enabled)
  unfolding handle_config rate_form form_value set_request_limit fetch_status status_reply
      handle_status report RateLimiter.get_stats RequestLimiter.get_stats
  typed-shown b time now q n secs max safe window h =
      let limiter = rate-typed n secs max safe window h in
      (
        config-typed n secs max safe window h,
        ap (λ rl. b.text_of rl.max_requests) limiter ∙ b.text_of-safe n safe ∙ sym max,
        ap (λ rl. b.text_of (whole_seconds rl.window)) limiter
            ∙ ap b.text_of (seconds_back secs)
            ∙ b.text_of-safe (pos secs) (omega arith)
            ∙ sym window,
        ap (λ rl. rl.enabled) limiter,
      )
