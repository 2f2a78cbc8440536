-- ===== src/Main/Site/Refine.antt =====
-- The handler of cmd/main.go's listener, and one whose rate limiter forgets nothing.
use poly_balance.Base.{
  ℕ, ◌≡◌, refl, sym, ap, ◌∙◌, subst, String, Bool, true, false, List, [], ◌∷◌, ℤ, pos, ltb_ℤ,
  if◌then◌else◌, not,
}
use poly_balance.Http.{Request, Writer, unsent, write, write_header}
use poly_balance.Http.Mux.{Route, bad_request, not_found, moved, handled, follow, route, cleaned}
use poly_balance.Middleware.RateLimiter
use poly_balance.Middleware.RateLimiter.{RateLimiter, allow, cleanup, client_key}
use poly_balance.Middleware.RateLimiter.Log.{Log, admit}
use poly_balance.Middleware.RequestLimiter
use poly_balance.Middleware.RequestLimiter.{max_bytes_reader, header_size}
use poly_balance.Dashboard.{handle_backends}
use poly_balance.Main.{System}
use poly_balance.Main.Site.{
  Outside, Visit, Target, to_healthz, to_readyz, to_page, to_backends, to_toggle, to_balancer,
  to_status, to_config, to_test, to_send, to_strategy, through, serve_target, balance, handle,
  routes,
}
use poly_balance.Main.Site.Ends.{refusal}
use poly_balance.Main.Site.Decisions.{Happening, arrives, cleans, admitted}

-- The handlers that neither read nor change the rate limiter.
abbrev pub IgnoresLimiter : Route Target → Type 0
IgnoresLimiter (handled to_status) = ⊥
IgnoresLimiter (handled to_config) = ⊥
IgnoresLimiter (handled to_test) = ⊥
IgnoresLimiter (handled to_send) = ⊥
IgnoresLimiter (handled to_strategy) = ⊥
IgnoresLimiter _ = Unit

abbrev pub put_limiter : RateLimiter → System × Writer → System × Writer
put_limiter rl (s, w) = (record s { rate_limiter = rl }, w)

if-commutes :
    {A B : Type 0} (b : Bool) (f : A → B) {x y : A} {x' y' : B}
    → x' ≡ f x
    → y' ≡ f y
    → (if b then x' else y') ≡ f (if b then x else y)
if-commutes true f px py = px
if-commutes false f px py = py

module _ (out : Outside) where
  -- The balancer at work.
  abbrev pub run_site : List Happening → System → System × List Writer
  run_site [] s = (s, [])
  run_site (arrives v r ∷ hs) s =
      let (s', w) = handle out v r (s, unsent) in let (s'', ws) = run_site hs s' in (s'', w ∷ ws)
  run_site (cleans now ∷ hs) s =
      run_site hs (record s { rate_limiter = cleanup now s.rate_limiter })

  -- All that stands behind the rate limiter.
  abbrev pub behind : Visit → Request → System × Writer → System × Writer
  behind v r (s, w) =
      RequestLimiter.limited
        (λ q p. follow out.page (serve_target out v q) q (route out.clean routes q) p)
        s.request_limiter r (s, w)

  -- Every request of the list is for such a handler.
  abbrev pub AllIgnore : List Happening → Type 0
  AllIgnore [] = Unit
  AllIgnore (arrives v r ∷ hs) = IgnoresLimiter (route out.clean routes r) × AllIgnore hs
  AllIgnore (cleans now ∷ hs) = AllIgnore hs

  module _ (max window : ℤ) where
    -- The balancer whose limiter is the log.
    abbrev pub spec_site : List Happening → Log → System → System × List Writer
    spec_site [] log s = (s, [])
    spec_site (arrives v r ∷ hs) log s =
        let ok = admitted max window log v r in
        let (s', w) =
          (if ok
            then behind v r (s, unsent)
            else (s, refusal 429 "{\"error\": \"rate limit exceeded\", \"retry_after\": 60}")) in
        let (s'', ws) = spec_site hs (admit ok (client_key r) v.arrived log) s' in (s'', w ∷ ws)
    spec_site (cleans now ∷ hs) log s = spec_site hs log s

  target-put :
      (v : Visit) (r : Request) (t : Target) (rl : RateLimiter) (s : System) (w : Writer)
      → IgnoresLimiter (handled t)
      → serve_target out v r t (record s { rate_limiter = rl }, w)
        ≡ put_limiter rl (serve_target out v r t (s, w))
  unfolding serve_target balance handle_backends
  target-put v r to_healthz rl s w ignores = refl
  target-put v r to_readyz rl s w ignores = refl
  target-put v r to_page rl s w ignores = refl
  target-put v r to_backends rl s w ignores = refl
  target-put v r to_toggle rl s w ignores = refl
  target-put v r to_balancer rl s w ignores = refl
  target-put v r _ rl s w ignores = absurd ignores

  follow-put :
      (v : Visit) (r : Request) (goal : Route Target) (rl : RateLimiter) (s : System) (w : Writer)
      → IgnoresLimiter goal
      → follow out.page (serve_target out v r) r goal (record s { rate_limiter = rl }, w)
        ≡ put_limiter rl (follow out.page (serve_target out v r) r goal (s, w))
  unfolding follow
  follow-put v r bad_request rl s w ignores = refl
  follow-put v r not_found rl s w ignores = refl
  follow-put v r (moved target) rl s w ignores = refl
  follow-put v r (handled t) rl s w ignores = target-put v r t rl s w ignores

  pub route_body :
      (r : Request) (body : List ℕ)
      → route out.clean routes (record r { body = body }) ≡ route out.clean routes r
  unfolding route cleaned
  route_body r body = refl

  behind-put :
      (v : Visit) (r : Request) (rl : RateLimiter) (s : System)
      → IgnoresLimiter (route out.clean routes r)
      → behind v r (record s { rate_limiter = rl }, unsent)
        ≡ put_limiter rl (behind v r (s, unsent))
  unfolding RequestLimiter.limited
  behind-put v r rl s ignores =
      let q = record r { body = max_bytes_reader s.request_limiter.max_body_size r.body } in
      let ignores' = subst IgnoresLimiter (sym (route_body r q.body)) ignores in
      if-commutes (not s.request_limiter.enabled) (put_limiter rl)
        (follow-put v r (route out.clean routes r) rl s unsent ignores)
        (if-commutes (ltb_ℤ s.request_limiter.max_header_size (pos (header_size 0 r.header)))
          (put_limiter rl) refl
          (if-commutes (ltb_ℤ s.request_limiter.max_body_size r.content_length) (put_limiter rl)
            refl (follow-put v q (route out.clean routes q) rl s unsent ignores')))

  abbrev limit_message : String
  limit_message = "{\"error\": \"rate limit exceeded\", \"retry_after\": 60}"

  -- What the specification does with one request.
  abbrev settled : Bool → Visit → Request → System → System × Writer
  settled ok v r s = if ok then behind v r (s, unsent) else (s, refusal 429 limit_message)

  pub handle-settled :
      (v : Visit) (r : Request) (s : System) (rl : RateLimiter) (ok : Bool)
      → IgnoresLimiter (route out.clean routes r)
      → (allow (client_key r) v.arrived rl).1 ≡ ok
      → handle out v r (record s { rate_limiter = rl }, unsent)
        ≡ put_limiter (allow (client_key r) v.arrived rl).0 (settled ok v r s)
  unfolding handle through RateLimiter.limited refusal write write_header
  handle-settled v r s rl ok ignores decided =
      let (rl', passes) = allow (client_key r) v.arrived rl in
      if-commutes passes (put_limiter rl') (behind-put v r rl' s ignores) refl
      ∙ ap (λ b. put_limiter rl' (settled b v r s)) decided

  -- The same state but for the limiter, and the same answers.
  abbrev Matches : System × List Writer → System × List Writer → Type 0
  Matches (s, ws) (s', ws') =
      ((rl : RateLimiter) × (s ≡ record s' { rate_limiter = rl })) × (ws ≡ ws')
