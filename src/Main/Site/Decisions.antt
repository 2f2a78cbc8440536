-- ===== src/Main/Site/Decisions.antt =====
-- middleware/ratelimit.go in the balancer: its decisions, against a log that forgets nothing.
use poly_balance.Base.{ℕ, ◌≤◌, ◌≡◌, ap, ◌∙◌, subst, Bool, true, List, [], ◌∷◌, ℤ, pos, ltb_ℤ}
use poly_balance.Http.{Request}
use poly_balance.Middleware.RateLimiter.{RateLimiter, allow, cleanup, client_key}
use poly_balance.Middleware.RateLimiter.Log.{Log, admit, in_window, Agrees}
use poly_balance.Middleware.RateLimiter.Refine.{allow-Decides, cleanup-Agrees}
use poly_balance.Main.Site.{Visit}

-- A request, or a tick of the cleanup goroutine.
pub data Happening : Type 0 where
  arrives : Visit → Request → Happening
  cleans : ℕ → Happening

abbrev pub moment : Happening → ℕ
moment (arrives v r) = v.arrived
moment (cleans now) = now

-- The moments do not go back, from `t` on.
abbrev pub Monotone : ℕ → List Happening → Type 0
Monotone t [] = Unit
Monotone t (h ∷ hs) = (t ≤ moment h) × Monotone (moment h) hs

module _ (max window : ℤ) where
  -- The specification: a request is admitted by the log of all admitted requests.
  abbrev pub admitted : Log → Visit → Request → Bool
  admitted log v r = ltb_ℤ (pos (in_window window (client_key r) v.arrived log)) max

  -- A limiter of the given settings, whose table tells what the log tells.
  pub record Serves (t : ℕ) (rl : RateLimiter) (log : Log) : Type 0 where
    pub on : rl.enabled ≡ true
    pub same_max : rl.max_requests ≡ max
    pub same_window : rl.window ≡ window
    pub agrees : Agrees t rl log

  pub decides :
      (t : ℕ) (v : Visit) (r : Request) (rl : RateLimiter) (log : Log)
      → t ≤ v.arrived
      → Serves t rl log
      → let ok = admitted log v r in
        ((allow (client_key r) v.arrived rl).1 ≡ ok)
        × Serves v.arrived
            (allow (client_key r) v.arrived rl).0
            (admit ok (client_key r) v.arrived log)
  decides t v r rl log later serves =
      let d = allow-Decides t v.arrived (client_key r) rl log later serves.on serves.agrees in
      let decision : (allow (client_key r) v.arrived rl).1 ≡ admitted log v r =
        d.decision
        ∙ ap (λ w. ltb_ℤ (pos (in_window w (client_key r) v.arrived log)) rl.max_requests)
            serves.same_window
        ∙ ap (ltb_ℤ (pos (in_window window (client_key r) v.arrived log))) serves.same_max in
      (
        decision,
        record {
          on = d.still_enabled;
          same_max = d.same_max ∙ serves.same_max;
          same_window = d.same_window ∙ serves.same_window;
          agrees =
              subst
                (λ ok.
                  Agrees v.arrived (allow (client_key r) v.arrived rl).0
                    (admit ok (client_key r) v.arrived log))
                decision d.agrees;
        },
      )

  pub cleanup-Serves :
      (t now : ℕ) (rl : RateLimiter) (log : Log)
      → t ≤ now
      → Serves t rl log
      → Serves now (cleanup now rl) log
  unfolding cleanup
  cleanup-Serves t now rl log later serves = record {
    on = serves.on;
    same_max = serves.same_max;
    same_window = serves.same_window;
    agrees = unfold cleanup in cleanup-Agrees t now rl log later serves.agrees;
  }
