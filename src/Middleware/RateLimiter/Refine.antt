-- ===== src/Middleware/RateLimiter/Refine.antt =====
-- middleware/ratelimit.go: its pruned table, and the log of all admitted requests.
use mathlib.Core.List.{append-nil}
use poly_balance.Base.{
  ℕ, ◌≤◌, String, Bool, true, false, Bool-cases, inl, inr, not, ℤ, pos, ltb_ℤ, leb_ℤ, List, [], ◌∷◌,
  ◌++◌, ◌≡◌, refl, sym, ◌∙◌, ap, subst, length, arith, first_branch, last_branch, str_eq,
  if◌then◌else◌,
}
use poly_balance.Middleware.RateLimiter.{
  RateLimiter, new_rate_limiter, times_of, put, valid_times, allow, cleanup,
}
use poly_balance.Middleware.RateLimiter.Table.{prune-Distinct, times_of-prune}
use poly_balance.Middleware.RateLimiter.Log.{
  Event, request, sweep, Monotone, Log, admit, run_events, logged, logged-append, in_window,
  spec_events, valid_times-twice, Agrees, put-Agrees,
}

-- What one call of `allow` gives beside the log: the decision of the specification.
pub record Decides (now : ℕ) (ip : String) (rl : RateLimiter) (log : Log) (r : RateLimiter × Bool)
    : Type 0 where
  pub decision : r.1 ≡ ltb_ℤ (pos (in_window rl.window ip now log)) rl.max_requests
  pub agrees : Agrees now r.0 (admit r.1 ip now log)
  pub still_enabled : r.0.enabled ≡ true
  pub same_max : r.0.max_requests ≡ rl.max_requests
  pub same_window : r.0.window ≡ rl.window

grown :
    (ip j : String) (now : ℕ) (log : Log)
    → logged j (admit true ip now log)
      ≡ (if str_eq ip j then logged j log ++ (now ∷ []) else logged j log)
grown ip j now log = elim (Bool-cases (str_eq ip j)) [
  | inl same ↦ rw (logged-append j log ((ip, now) ∷ []), same)
  | inr other ↦ rw (logged-append j log ((ip, now) ∷ []), other) (append-nil (logged j log))
]

not_grown :
    (ip j : String) (now : ℕ) (log : Log)
    → logged j log ≡ (if str_eq ip j then logged j log ++ [] else logged j log)
not_grown ip j now log = elim (Bool-cases (str_eq ip j)) [
  | inl same ↦ rw same (sym (append-nil (logged j log)))
  | inr other ↦ rw other
]

full_iff : (max : ℤ) (n : ℕ) → leb_ℤ max (pos n) ≡ not (ltb_ℤ (pos n) max)
full_iff max n = ground arith

-- The two outcomes of an enabled limiter.
allow_full :
    (ip : String) (now : ℕ) (rl : RateLimiter)
    → let valid = valid_times rl.window now (times_of ip rl.requests) in
      rl.enabled ≡ true
      → leb_ℤ rl.max_requests (pos (length valid)) ≡ true
      → allow ip now rl ≡ (record rl { requests = put ip valid rl.requests }, false)
unfolding allow
allow_full ip now rl on full = first_branch rl.enabled _ _ _ _ on full

allow_room :
    (ip : String) (now : ℕ) (rl : RateLimiter)
    → let valid = valid_times rl.window now (times_of ip rl.requests) in
      rl.enabled ≡ true
      → leb_ℤ rl.max_requests (pos (length valid)) ≡ false
      → allow ip now rl ≡ (record rl { requests = put ip (valid ++ (now ∷ [])) rl.requests }, true)
unfolding allow
allow_room ip now rl on room = last_branch rl.enabled _ _ _ _ on room

pub allow-Decides :
    (t now : ℕ) (ip : String) (rl : RateLimiter) (log : Log)
    → t ≤ now
    → rl.enabled ≡ true
    → Agrees t rl log
    → Decides now ip rl log (allow ip now rl)
allow-Decides t now ip rl log h on a =
    let count : length (valid_times rl.window now (times_of ip rl.requests))
        ≡ in_window rl.window ip now log =
      ap length (a.same_times ip now h) in
    elim (Bool-cases (ltb_ℤ (pos (in_window rl.window ip now log)) rl.max_requests)) [
      | inl room ↦
          let test : leb_ℤ rl.max_requests
                (pos (length (valid_times rl.window now (times_of ip rl.requests))))
              ≡ false =
            rw count (full_iff rl.max_requests (in_window rl.window ip now log) ∙ ap not room) in
          subst (Decides now ip rl log) (sym (allow_room ip now rl on test)) (record {
            decision = sym room;
            agrees = put-Agrees t now rl log ip true (now ∷ []) h a (λ j. grown ip j now log);
            still_enabled = on;
            same_max = refl;
            same_window = refl;
          })
      | inr full ↦
          let test : leb_ℤ rl.max_requests
                (pos (length (valid_times rl.window now (times_of ip rl.requests))))
              ≡ true =
            rw count (full_iff rl.max_requests (in_window rl.window ip now log) ∙ ap not full) in
          subst (Decides now ip rl log) (sym (allow_full ip now rl on test)) (record {
            decision = sym full;
            agrees =
                subst (λ l. Agrees now (record rl { requests = put ip l rl.requests }) log)
                  (append-nil (valid_times rl.window now (times_of ip rl.requests)))
                  (put-Agrees t now rl log ip false [] h a (λ j. not_grown ip j now log));
            still_enabled = on;
            same_max = refl;
            same_window = refl;
          })
    ]

pub cleanup-Agrees :
    (t now : ℕ) (rl : RateLimiter) (log : Log)
    → t ≤ now
    → Agrees t rl log
    → Agrees now (cleanup now rl) log
unfolding cleanup
cleanup-Agrees t now rl log h a = record {
  distinct = prune-Distinct rl.window now rl.requests a.distinct;
  same_times = λ ip later k.
      ap (valid_times rl.window later) (times_of-prune rl.window now ip rl.requests a.distinct)
      ∙ valid_times-twice rl.window now later (times_of ip rl.requests) k
      ∙ a.same_times ip later (omega arith);
}

run_events-spec_events_of :
    (es : List Event) (t : ℕ) (rl : RateLimiter) (log : Log)
    → Monotone t es
    → rl.enabled ≡ true
    → Agrees t rl log
    → (run_events es rl log).1 ≡ spec_events rl.max_requests rl.window es log
unfolding run_events spec_events
run_events-spec_events_of [] t rl log m on a = refl
run_events-spec_events_of (request ip now ∷ es) t rl log m on a =
    let r = allow ip now rl in
    let d = allow-Decides t now ip rl log m.0 on a in
    run_events-spec_events_of es now r.0 (admit r.1 ip now log) m.1 d.still_enabled d.agrees
    ∙ ap (λ max. spec_events max r.0.window es (admit r.1 ip now log)) d.same_max
    ∙ ap (λ window. spec_events rl.max_requests window es (admit r.1 ip now log)) d.same_window
    ∙ ap (λ ok. spec_events rl.max_requests rl.window es (admit ok ip now log)) d.decision
run_events-spec_events_of (sweep now ∷ es) t rl log m on a =
    run_events-spec_events_of es now (cleanup now rl) log m.1 (unfold cleanup in on)
      (cleanup-Agrees t now rl log m.0 a)
    ∙ (unfold cleanup in refl)

pub new-Agrees : (max window : ℤ) (on : Bool) → Agrees 0 (new_rate_limiter max window on) []
unfolding new_rate_limiter times_of
new-Agrees max window on = record { distinct = tt; same_times = λ ip now h. refl }

-- Over any sequence of requests and cleanups with a clock that does not go back, an enabled limiter
-- admits exactly the requests of the specification, which keeps every admitted request for ever:
-- neither the pruning in `Allow` nor that of the cleanup goroutine changes a decision.
pub run_events-spec_events :
    (max window : ℤ) (es : List Event)
    → Monotone 0 es
    → (run_events es (new_rate_limiter max window true) []).1 ≡ spec_events max window es []
run_events-spec_events max window es m =
    run_events-spec_events_of es 0 (new_rate_limiter max window true) [] m
      (unfold new_rate_limiter in refl) (new-Agrees max window true)
    ∙ (unfold new_rate_limiter in refl)
