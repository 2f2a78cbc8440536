-- ===== src/Page/Shown.antt =====
-- ui/dashboard.go: the settings that the page shows and sends, against the handlers that report and
-- take them.
use poly_balance.Base.{
  ℕ, ◌*◌, ◌/◌, ◌%◌, ◌≤◌, ◌<◌, ◌≡◌, refl, sym, ap, ◌∙◌, subst, String, Bool, true, false, not, none,
  some, ℤ, pos, negsuc, inr, inl, Bool-cases, List, str_eq, str_eq_iff, arith, max_int64, leb,
  then_branch,
}
use poly_balance.Text.{atoi}
use poly_balance.Text.Decimal.{IsInt64, atoi-decimal}
use poly_balance.Middleware.RateLimiter
use poly_balance.Middleware.RateLimiter.{RateLimiter, whole_seconds}
use poly_balance.Middleware.RequestLimiter
use poly_balance.Middleware.RequestLimiter.{RequestLimiter}
use poly_balance.Dashboard.{
  Dashboard, handle_status, handle_config, report, set_rate_limit, set_request_limit, number_or,
  times_second,
}
use poly_balance.Page.{Browser, Page, IsSafe, fetch_status, status_reply}
use poly_balance.Page.Actions.{
  rate_form, request_form, form_value, text_of_bool, toggle_rate_limit, toggle_request_limit,
}

pub safe-IsInt64 : (n : ℤ) → IsSafe n → IsInt64 n
safe-IsInt64 (pos n) h = omega arith
safe-IsInt64 (negsuc n) h = omega arith

-- The page's text of a number is read back, and is not empty.
shown-atoi : (b : Browser) (n : ℤ) → IsSafe n → atoi (b.text_of n) ≡ some n
shown-atoi b n safe = ap atoi (b.text_of-safe n safe) ∙ atoi-decimal n (safe-IsInt64 n safe)

read-given : (s : String) (n : ℤ) → atoi s ≡ some n → str_eq s "" ≡ false
unfolding atoi
read-given s n read = elim (Bool-cases (str_eq s "")) [
  | inl empty ↦
      let clash : none ≡ some n = sym (ap atoi ((str_eq_iff s "").0 empty)) ∙ read in ground arith
  | inr given ↦ given
]

-- A Boolean that the page sends is not empty, and is taken for itself.
bool_read :
    (on : Bool) → (str_eq (text_of_bool on) "" ≡ false) × (str_eq (text_of_bool on) "true" ≡ on)
unfolding text_of_bool
bool_read true = (refl, refl)
bool_read false = (refl, refl)

-- What `handleConfig` does to a limiter when the form gives all its values.
pub rate_limit_taken :
    (form : String → String) (rl : RateLimiter) (on : Bool) (n secs : ℤ)
    → form "rate_limit_enabled" ≡ text_of_bool on
    → atoi (form "rate_limit_max") ≡ some n
    → atoi (form "rate_limit_window") ≡ some secs
    → set_rate_limit form rl
      ≡ RateLimiter.set_limits n (times_second secs) (RateLimiter.set_enabled on rl)
unfolding set_rate_limit
rate_limit_taken form rl on n secs switch max window =
    let (given, is_on) = bool_read on in
    let max_given = read-given (form "rate_limit_max") n max in
    let window_given = read-given (form "rate_limit_window") secs window in
    rw (max_given, max, window_given, window, switch, given, is_on) refl

request_limit_taken :
    (form : String → String) (rl : RequestLimiter) (on : Bool) (n m : ℤ)
    → form "request_limit_enabled" ≡ text_of_bool on
    → atoi (form "max_body_size") ≡ some n
    → atoi (form "max_header_size") ≡ some m
    → set_request_limit form rl ≡ RequestLimiter.set_limits n m (RequestLimiter.set_enabled on rl)
unfolding set_request_limit number_or
request_limit_taken form rl on n m switch body header =
    let (given, is_on) = bool_read on in
    let body_given = read-given (form "max_body_size") n body in
    let header_given = read-given (form "max_header_size") m header in
    rw (body_given, body, header_given, header, switch, given, is_on) refl

-- The page once a status of this dashboard has arrived.
abbrev pub shown : Browser → String → ℕ → Dashboard → Page → Page
shown b time now d p = fetch_status b time (status_reply b (handle_status now d)) p

-- A form as the handler of /api/config takes it.
abbrev pub post_config : List (String × String) → Dashboard → Dashboard
post_config form d = (handle_config "POST" (inr (form_value form)) d).0

-- Seconds that are shown of a window, taken back.
window_taken :
    (n : ℕ)
    → n < 8_388_608_000_000_000
    → times_second (whole_seconds (pos n)) ≡ pos (n / 1_000_000_000 * 1_000_000_000)
unfolding times_second whole_seconds
window_taken n h =
    let below : n / 1_000_000_000 * 1_000_000_000 ≤ n = omega arith in
    let same : n / 1_000_000_000 * 1_000_000_000 % 18446744073709551616
        ≡ n / 1_000_000_000 * 1_000_000_000 =
      omega arith in
    rw same (then_branch (leb (n / 1_000_000_000 * 1_000_000_000) max_int64) _ _ (ground arith))

window_shown : (n : ℕ) → n < 8_388_608_000_000_000 → IsSafe (whole_seconds (pos n))
unfolding whole_seconds
window_shown n h = omega arith

module _ (b : Browser) (time : String) (now : ℕ) (p : Page) (d : Dashboard) where
  rate_form-shown :
      (n : ℕ)
      → d.rate_limiter.window ≡ pos n
      → n < 8_388_608_000_000_000
      → IsSafe d.rate_limiter.max_requests
      → post_config (rate_form (shown b time now d p)) d ≡ record d {
        rate_limiter = record d.rate_limiter { window = pos (n / 1_000_000_000 * 1_000_000_000) };
      }
  unfolding fetch_status status_reply handle_status report RateLimiter.get_stats
      RequestLimiter.get_stats handle_config rate_form form_value set_request_limit
      RateLimiter.set_limits RateLimiter.set_enabled
  rate_form-shown n w h safe =
      let form = form_value (rate_form (shown b time now d p)) in
      let taken =
        rate_limit_taken form d.rate_limiter d.rate_limiter.enabled d.rate_limiter.max_requests
          (whole_seconds d.rate_limiter.window) refl (shown-atoi b d.rate_limiter.max_requests safe)
          (shown-atoi b (whole_seconds d.rate_limiter.window)
            (subst (λ v. IsSafe (whole_seconds v)) (sym w) (window_shown n h))) in
      let whole = ap (λ v. times_second (whole_seconds v)) w ∙ window_taken n h in
      ap (λ rl. record d { rate_limiter = rl })
        (taken ∙ ap (λ v. record d.rate_limiter { window = v }) whole)

  request_form-shown :
      IsSafe d.request_limiter.max_body_size
      → IsSafe d.request_limiter.max_header_size
      → post_config (request_form (shown b time now d p)) d ≡ d
  unfolding fetch_status status_reply handle_status report RateLimiter.get_stats
      RequestLimiter.get_stats handle_config request_form form_value set_rate_limit
      RequestLimiter.set_limits RequestLimiter.set_enabled
  request_form-shown body header =
      let form = form_value (request_form (shown b time now d p)) in
      let taken =
        request_limit_taken form d.request_limiter d.request_limiter.enabled
          d.request_limiter.max_body_size d.request_limiter.max_header_size refl
          (shown-atoi b d.request_limiter.max_body_size body)
          (shown-atoi b d.request_limiter.max_header_size header) in
      ap (λ rl. record d { request_limiter = rl }) taken

  -- Once a status has arrived, whatever was typed before, both buttons send what the balancer has:
  -- the one for the request limits changes nothing, and the one for the rate limiter only cuts the
  -- window down to whole seconds, if the numbers are below 2^53 in size, and the window is positive
  -- and below 2^23 seconds.
  pub apply-shown :
      (n : ℕ)
      → d.rate_limiter.window ≡ pos n
      → n < 8_388_608_000_000_000
      → IsSafe d.rate_limiter.max_requests
      → IsSafe d.request_limiter.max_body_size
      → IsSafe d.request_limiter.max_header_size
      → (post_config (rate_form (shown b time now d p)) d ≡ record d {
        rate_limiter = record d.rate_limiter { window = pos (n / 1_000_000_000 * 1_000_000_000) };
      })
        × (post_config (request_form (shown b time now d p)) d ≡ d)
  apply-shown n w h max body header = (rate_form-shown n w h max, request_form-shown body header)

  -- Once a status has arrived, a click of either toggle flips the limiter's switch on the page and in
  -- the balancer alike, and changes no other part of the balancer.
  pub toggle-shown :
      let (p', form) = toggle_rate_limit (shown b time now d p) in
      let (q', form') = toggle_request_limit (shown b time now d p) in
      (post_config form d ≡ record d {
        rate_limiter = RateLimiter.set_enabled (not d.rate_limiter.enabled) d.rate_limiter;
      })
      × (p'.rate_limit_active ≡ (post_config form d).rate_limiter.enabled)
      × (post_config form' d ≡ record d {
        request_limiter =
            RequestLimiter.set_enabled (not d.request_limiter.enabled) d.request_limiter;
      })
      × (q'.request_limit_active ≡ (post_config form' d).request_limiter.enabled)
  unfolding fetch_status status_reply handle_status report RateLimiter.get_stats
      RequestLimiter.get_stats handle_config set_rate_limit set_request_limit form_value
      toggle_rate_limit toggle_request_limit RateLimiter.set_enabled RequestLimiter.set_enabled
  toggle-shown =
      let (given, is_on) = bool_read (not d.rate_limiter.enabled) in
      let (given', is_on') = bool_read (not d.request_limiter.enabled) in
      (
        rw (given, is_on) refl,
        rw (given, is_on) refl,
        rw (given', is_on') refl,
        rw (given', is_on') refl,
      )
