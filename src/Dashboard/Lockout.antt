-- ===== src/Dashboard/Lockout.antt =====
-- What the settings of ui/dashboard.go do to the requests after them.
use poly_balance.Base.{
  ℕ, ◌≡◌, refl, sym, ap, subst, ◌∙◌, String, true, false, Bool-cases, Cell, inl, inr, none, some, ℤ,
  pos, leb_ℤ, List, [], ◌∷◌, length, All, str_eq, str_eq_iff, first_branch, else_branch, arith,
}
use poly_balance.Text.{atoi}
use poly_balance.Http.{Request, Writer, unsent, write, write_header}
use poly_balance.Middleware.RateLimiter.{
  RateLimiter, allow, limited, client_key, valid_times, times_of, put, set_enabled, set_limits,
}
use poly_balance.Dashboard.{Dashboard, handle_config, set_rate_limit}

-- An enabled limiter that admits no request.
abbrev pub Locked : RateLimiter → Type 0
Locked rl = (rl.enabled ≡ true) × (leb_ℤ rl.max_requests (pos 0) ≡ true)

no_room : (m : ℤ) (n : ℕ) → leb_ℤ m (pos 0) ≡ true → leb_ℤ m (pos n) ≡ true
no_room m n h = ground arith

allow-Locked :
    (ip : String) (now : ℕ) (rl : RateLimiter)
    → Locked rl
    → ((allow ip now rl).1 ≡ false) × Locked (allow ip now rl).0
unfolding allow
allow-Locked ip now rl (on, low) =
    let valid = valid_times rl.window now (times_of ip rl.requests) in
    let e : allow ip now rl ≡ (record rl { requests = put ip valid rl.requests }, false) =
      first_branch rl.enabled (leb_ℤ rl.max_requests (pos (length valid))) _ _ _ on
        (no_room rl.max_requests (length valid) low) in
    subst (λ r. (r.1 ≡ false) × Locked r.0) (sym e) (refl, (on, low))

-- The requests that come to the limiter after each other, each with a writer of its own: the state
-- after them, and what the clients were sent.
abbrev pub serve_all :
    {S : Type 0}
    → Cell S RateLimiter
    → (Request → S × Writer → S × Writer)
    → List (ℕ × Request)
    → S
    → S × List Writer
serve_all cell next [] s = (s, [])
serve_all cell next ((now, r) ∷ rs) s =
    let (s', w) = limited cell next now r (s, unsent) in
    let (s'', ws) = serve_all cell next rs s' in (s'', w ∷ ws)

module _ {S : Type 0} (cell : Cell S RateLimiter) (next : Request → S × Writer → S × Writer) where
  limited_refused :
      (now : ℕ) (r : Request) (s : S) (w : Writer)
      → (allow (client_key r) now (cell.get s)).1 ≡ false
      → limited cell next now r (s, w) ≡ (
        cell.put (allow (client_key r) now (cell.get s)).0 s,
        write "{\"error\": \"rate limit exceeded\", \"retry_after\": 60}" (write_header 429 w),
      )
  unfolding limited
  limited_refused now r s w refused = else_branch _ _ _ refused

  -- The state has changed in the limiter only, which is still locked.
  abbrev OnlyLimiter : S → S → Type 0
  OnlyLimiter s s' = (rl : RateLimiter) × (s' ≡ cell.put rl s) × Locked rl

  pub limited-Locked :
      (now : ℕ) (r : Request) (s : S)
      → Locked (cell.get s)
      → OnlyLimiter s (limited cell next now r (s, unsent)).0
        × ((limited cell next now r (s, unsent)).1.sent ≡ some 429)
  unfolding limited write write_header
  limited-Locked now r s l =
      let (refused, locked) = allow-Locked (client_key r) now (cell.get s) l in
      subst (λ x. OnlyLimiter s x.0 × (x.1.sent ≡ some 429))
        (sym (limited_refused now r s unsent refused)) ((_, refl, locked), refl)

  serve_all-Locked :
      (rs : List (ℕ × Request)) (rl : RateLimiter) (s : S)
      → Locked rl
      → OnlyLimiter s (serve_all cell next rs (cell.put rl s)).0
        × All (λ w. w.sent ≡ some 429) (serve_all cell next rs (cell.put rl s)).1
  serve_all-Locked [] rl s l = ((rl, refl, l), tt)
  serve_all-Locked ((now, r) ∷ rs) rl s l =
      let ((rl', e, locked), sent) =
        limited-Locked now r (cell.put rl s) (subst Locked (sym (cell.get_put rl s)) l) in
      let same = e ∙ cell.put_put rl rl' s in
      let (rest, all) = serve_all-Locked rs rl' s locked in
      subst
        (λ t.
          OnlyLimiter s (serve_all cell next rs t).0
          × (((limited cell next now r (cell.put rl s, unsent)).1.sent ≡ some 429)
              × All (λ w. w.sent ≡ some 429) (serve_all cell next rs t).1))
        (sym same) (rest, (sent, all))

number_given : (value : String) (n : ℤ) → atoi value ≡ some n → str_eq value "" ≡ false
unfolding atoi
number_given value n h = elim (Bool-cases (str_eq value "")) [
  | inl empty ↦
      let nothing : atoi value ≡ none = ap atoi ((str_eq_iff value "").0 empty) in
      let clash : none ≡ some n = sym nothing ∙ h in ground arith
  | inr given ↦ given
]

pub set_rate_limit-Locked :
    (form : String → String) (n : ℤ) (rl : RateLimiter)
    → form "rate_limit_enabled" ≡ "true"
    → atoi (form "rate_limit_max") ≡ some n
    → leb_ℤ n (pos 0) ≡ true
    → Locked (set_rate_limit form rl)
unfolding set_rate_limit set_enabled set_limits
set_rate_limit-Locked form n rl on number low =
    let set_on : str_eq (form "rate_limit_enabled") "true" ≡ true = (str_eq_iff _ "true").1 on in
    let on_given : str_eq (form "rate_limit_enabled") "" ≡ false = ap (λ v. str_eq v "") on in
    let max_given = number_given (form "rate_limit_max") n number in
    rw (max_given, number, on_given, set_on, set_rate_limit) (refl, low)

-- A form that switches the rate limiter on with a maximum that is not above zero shuts every client
-- out: all requests after it are answered with 429, and the handler behind the limiter, in which the
-- dashboard's own is, changes nothing of the state, of which the limiter is a part.
pub lockout :
    {S : Type 0} (cell : Cell S RateLimiter) (next : Request → S × Writer → S × Writer)
    (rs : List (ℕ × Request)) (s : S) (form : String → String) (n : ℤ) (d : Dashboard)
    → form "rate_limit_enabled" ≡ "true"
    → atoi (form "rate_limit_max") ≡ some n
    → leb_ℤ n (pos 0) ≡ true
    → let after =
        serve_all cell next rs (cell.put (handle_config "POST" (inr form) d).0.rate_limiter s) in
      ((rl : RateLimiter) × (after.0 ≡ cell.put rl s) × Locked rl)
      × All (λ w. w.sent ≡ some 429) after.1
unfolding handle_config
lockout cell next rs s form n d on number low =
    serve_all-Locked cell next rs (set_rate_limit form d.rate_limiter) s
      (set_rate_limit-Locked form n d.rate_limiter on number low)
